-- ===== src/Uart/Calls.antt =====
-- The calls of include/uart_async.h; the interrupt is masked where they touch the rings.
use rewind_os.Base.{
  ℕ, zero, suc, ◌+◌, ◌%◌, ◌^◌, Bool, true, false, Option, none, some, List, [], ◌∷◌, if◌then◌else◌,
  ◌==◌, ◌&&◌, not, get_or, set, take,
}
use rewind_os.Sched.{sched_post}
use rewind_os.Uart.{
  Uart, DrvStatus, drv_idle, drv_in_progress, uart_ctx_valid, set_flag, rxneie, txeie,
  count_overrun, notify_rx, rx_next, rx_store,
}

-- The result of the call says whether there was room.
unfoldable pub uart_async_putc : ℕ → Uart → Option (Bool × Uart)
uart_async_putc c u = elim u.tx_buf [
  | none ↦ none
  | some b ↦
      let next_head = (u.tx_head + 1) % u.tx_size % 2 ^ 16 in
      if uart_ctx_valid u
      then if next_head == u.tx_tail
        then some (false, u)
        else some (
          true,
          record u {
            tx_buf = some (set b u.tx_head (c % 2 ^ 8));
            tx_head = next_head;
            tx_status = drv_in_progress;
            cr1 = set_flag u.cr1 txeie;
          },
        )
      else none
]

abbrev pub count_more : Option (ℕ × Uart) → Option (ℕ × Uart)
count_more none = none
count_more (some (n, u)) = some (n + 1, u)

-- The result is the number of characters that went into the ring.
unfoldable pub uart_async_puts : List ℕ → Uart → Option (ℕ × Uart)
uart_async_puts [] u = some (0, u)
uart_async_puts (c ∷ s) u = elim (uart_async_putc c u) [
  | none ↦ none
  | some (true, u') ↦ count_more (uart_async_puts s u')
  | some (false, u') ↦ some (0, u')
]

unfoldable pub uart_async_write : List ℕ → ℕ → Uart → Option (ℕ × Uart)
unfolding uart_async_puts
uart_async_write bytes n u = uart_async_puts (take n bytes) u

-- No byte is the result -1.
unfoldable pub uart_async_getc : Uart → Option (Option ℕ × Uart)
uart_async_getc u = elim u.rx_buf [
  | none ↦ none
  | some b ↦
      let next_tail = (u.rx_tail + 1) % u.rx_size % 2 ^ 16 in
      let status = if u.rx_head == next_tail then drv_idle else u.rx_status in
      if uart_ctx_valid u
      then if u.rx_head == u.rx_tail
        then some (none, u)
        else some
            (some (get_or b u.rx_tail 0), record u { rx_tail = next_tail; rx_status = status })
      else none
]

abbrev pub put_first : ℕ → Option (List ℕ × Uart) → Option (List ℕ × Uart)
put_first c none = none
put_first c (some (cs, u)) = some (c ∷ cs, u)

-- The argument is `max_n`; the result is the bytes that `data` receives.
unfoldable pub uart_async_read : ℕ → Uart → Option (List ℕ × Uart)
uart_async_read zero u = some ([], u)
uart_async_read (suc n) u = elim (uart_async_getc u) [
  | none ↦ none
  | some (none, u') ↦ some ([], u')
  | some (some c, u') ↦ put_first c (uart_async_read n u')
]

-- The loop of `uart_async_inject_rx` over the bytes left, with the ring's storage: how many were
-- written, and the state.
unfoldable pub inject_all : List ℕ → List ℕ → Uart → ℕ × Uart
inject_all [] b u = (0, u)
inject_all (c ∷ cs) b u =
    let (n, u') = inject_all cs (set b u.rx_head c) (rx_store b c u) in
    if rx_next u == u.rx_tail then (0, count_overrun u) else (n + 1, u')

-- The part behind the loop.
unfoldable pub inject_end : ℕ × Uart → Option (ℕ × Uart)
inject_end (zero, u) = some (zero, u)
inject_end (suc n, u) = elim (notify_rx sched_post u) [ none ↦ none | some u' ↦ some (suc n, u') ]

-- `bytes` is `none` for a null pointer.
unfoldable pub uart_async_inject_rx : Option (List ℕ) → ℕ → Uart → Option (ℕ × Uart)
unfolding inject_all inject_end
uart_async_inject_rx bytes n u = elim u.rx_buf [
  | none ↦ none
  | some b ↦
      if uart_ctx_valid u
      then if n == 0
        then some (0, u)
        else elim bytes [ none ↦ none | some cs ↦ inject_end (inject_all (take n cs) b u) ]
      else none
]

abbrev pub is_idle : DrvStatus → Bool
is_idle drv_idle = true
is_idle _ = false

unfoldable pub uart_tx_done : Uart → Bool
uart_tx_done u = u.tx_head == u.tx_tail && is_idle u.tx_status

unfoldable pub uart_rx_available : Uart → Bool
uart_rx_available u = not (u.rx_head == u.rx_tail)

unfoldable pub uart_async_bind_scheduler : Bool → ℕ → ℕ → Uart → Option Uart
uart_async_bind_scheduler sched ao_id rx_sig u =
    if sched && not (rx_sig == 0)
    then some (record u { rx_bound = true; ao_id = ao_id; rx_sig = rx_sig; rx_event_pending = 0 })
    else none

unfoldable pub uart_async_unbind_scheduler : Uart → Uart
uart_async_unbind_scheduler u = record u {
  rx_bound = false;
  ao_id = 0;
  rx_sig = 0;
  rx_event_pending = 0;
}

-- The result is whether bytes wait; only if none does, the next byte will post an event again.
unfoldable pub uart_async_rx_event_finish : Uart → Bool × Uart
uart_async_rx_event_finish u =
    if u.rx_head == u.rx_tail then (false, record u { rx_event_pending = 0 }) else (true, u)

unfoldable pub uart_async_bind_tx_notifier : Bool → ℕ → ℕ → Uart → Option Uart
uart_async_bind_tx_notifier sched ao_id tx_sig u =
    if sched && not (tx_sig == 0)
    then some (record u { tx_bound = true; tx_ao_id = ao_id; tx_sig = tx_sig })
    else none

unfoldable pub uart_async_unbind_tx_notifier : Uart → Uart
uart_async_unbind_tx_notifier u = record u { tx_bound = false; tx_ao_id = 0; tx_sig = 0 }

-- The result is the returned 1 or 0.
unfoldable pub uart_async_resume_after_restore : Uart → Bool × Uart
uart_async_resume_after_restore u =
    if uart_ctx_valid u
    then (
      true,
      record u {
        tx_head = 0;
        tx_tail = 0;
        tx_status = drv_idle;
        rx_head = 0;
        rx_tail = 0;
        rx_event_pending = 0;
      },
    )
    else (false, u)

unfoldable pub uart_async_resume_enable_irq : Uart → Uart
uart_async_resume_enable_irq u = record u { cr1 = set_flag u.cr1 rxneie }
