-- ===== src/Uart/Order.antt =====
-- The bytes go out over the line in the order in which `uart_async_putc` has taken them.
use rewind_os.Base.{
  ℕ, ◌%◌, ◌^◌, ◌≡◌, refl, sym, ap, ◌∙◌, Bool, true, false, Option, none, some, List, [], ◌∷◌, ◌++◌,
  if◌then◌else◌, ◌==◌, get_or, set, arith, append_assoc,
}
use native.Mathlib.Decide.{ℕ_discrete}
use rewind_os.Uart.{Uart, drv_idle, drv_in_progress, set_flag, txeie}
use rewind_os.Uart.Irq.{usart6_irq_handler}
use rewind_os.Uart.Rings.{put-queue, take-queue, next_index}
use rewind_os.Uart.Calls.{uart_async_putc, uart_async_getc}
use rewind_os.Base.{append-nil}
use rewind_os.Uart.Ready.{IsReady, Kept, tx_waiting, ready_valid, handler-Kept}

-- A character is taken in exactly if a cell stays free behind it.
putc-Kept :
    {out tb rb : List ℕ} {u : Uart} (c : ℕ)
    → Kept out tb rb u
    → (taken : Bool) × (tb' : List ℕ) × (u' : Uart) × (uart_async_putc c u ≡ some (taken, u'))
      × Kept (out ++ (if taken then c % 2 ^ 8 ∷ [] else [])) tb' rb u'
unfolding uart_async_putc
putc-Kept {out} {tb} {rb} {u} c (v, e) =
    elim (ℕ_discrete (next_index u.tx_size u.tx_head) u.tx_tail) [
      | yes full ↦
          let t : (next_index u.tx_size u.tx_head == u.tx_tail) ≡ true = ground arith in
          (
            false,
            tb,
            u,
            simp (v.has_tx, ready_valid v, t, uart_async_putc) refl,
            (v, e ∙ sym (append-nil out)),
          )
      | no room ↦
          let t : (next_index u.tx_size u.tx_head == u.tx_tail) ≡ false = ground arith in
          let (ring, more) = put-queue (c % 2 ^ 8) v.tx room in
          let u' = record u {
            tx_buf = some (set tb u.tx_head (c % 2 ^ 8));
            tx_head = next_index u.tx_size u.tx_head;
            tx_status = drv_in_progress;
            cr1 = set_flag u.cr1 txeie;
          } in
          (
            true,
            set tb u.tx_head (c % 2 ^ 8),
            u',
            rw (v.has_tx, ready_valid v, t, uart_async_putc) refl,
            (
              record {
                has_tx = refl;
                has_rx = v.has_rx;
                tx = ring;
                rx = v.rx;
                rx_named = v.rx_named;
                tx_named = v.tx_named;
              },
              ap (λ l. u.sent ++ l) more
                  ∙ sym (append_assoc u.sent (tx_waiting tb u) (c % 2 ^ 8 ∷ []))
                  ∙ ap (λ l. l ++ (c % 2 ^ 8 ∷ [])) e,
            ),
          )
    ]

getc-Kept :
    {out tb rb : List ℕ} {u : Uart}
    → Kept out tb rb u
    → (c : Option ℕ) × (u' : Uart) × (uart_async_getc u ≡ some (c, u')) × Kept out tb rb u'
unfolding uart_async_getc
getc-Kept {out} {tb} {rb} {u} (v, e) = elim (ℕ_discrete u.rx_head u.rx_tail) [
  | yes same ↦
      let t : (u.rx_head == u.rx_tail) ≡ true = ground arith in
      (none, u, simp (v.has_rx, ready_valid v, t, uart_async_getc) refl, (v, e))
  | no ne ↦
      let t : (u.rx_head == u.rx_tail) ≡ false = ground arith in
      let next_tail = next_index u.rx_size u.rx_tail in
      let status = if u.rx_head == next_tail then drv_idle else u.rx_status in
      let u' = record u { rx_tail = next_tail; rx_status = status } in
      (
        some (get_or rb u.rx_tail 0),
        u',
        simp (v.has_rx, ready_valid v, t, uart_async_getc) refl,
        (
          record {
            has_tx = v.has_tx;
            has_rx = v.has_rx;
            tx = v.tx;
            rx = (take-queue v.rx ne).0;
            rx_named = v.rx_named;
            tx_named = v.tx_named;
          },
          e,
        ),
      )
]

-- What happens to the driver: a call of `uart_async_putc` or `uart_async_getc`, or an interrupt with the
-- given ISR and RDR.
pub data Step : Type 0 where
  put : ℕ → Step
  get : Step
  interrupt : ℕ → ℕ → Step

-- The state after a step, with the bytes that `uart_async_putc` has taken.
unfoldable pub step : Step → Uart → Option (List ℕ × Uart)
step (put c) u = elim (uart_async_putc c u) [
  | none ↦ none
  | some (taken, u') ↦ some (if taken then c % 2 ^ 8 ∷ [] else [], u')
]
step get u = elim (uart_async_getc u) [ none ↦ none | some (c, u') ↦ some ([], u') ]
step (interrupt status rdr) u = elim (usart6_irq_handler status rdr u) [
  | none ↦ none
  | some u' ↦ some ([], u')
]

abbrev pub after : List ℕ → Option (List ℕ × Uart) → Option (List ℕ × Uart)
after cs none = none
after cs (some (ds, u)) = some (cs ++ ds, u)

unfoldable pub run_steps : List Step → Uart → Option (List ℕ × Uart)
run_steps [] u = some ([], u)
run_steps (s ∷ steps) u = elim (step s u) [
  | none ↦ none
  | some (cs, u') ↦ after cs (run_steps steps u')
]

step-Kept :
    {out tb rb : List ℕ} {u : Uart} (s : Step)
    → Kept out tb rb u
    → (cs tb' rb' : List ℕ) × (u' : Uart) × (step s u ≡ some (cs, u')) × Kept (out ++ cs) tb' rb' u'
unfolding step
step-Kept {out} {tb} {rb} (put c) k =
    let (taken, tb', u', e, k') = putc-Kept c k in
    (if taken then c % 2 ^ 8 ∷ [] else [], tb', rb, u', rw (e, step) refl, k')
step-Kept {out} {tb} {rb} get k =
    let (c, u', e, (v, same)) = getc-Kept k in
    ([], tb, rb, u', rw (e, step) refl, (v, same ∙ sym (append-nil out)))
step-Kept {out} {tb} {rb} (interrupt status rdr) k =
    let (rb', u', e, (v, same)) = handler-Kept status rdr k in
    ([], tb, rb', u', rw (e, step) refl, (v, same ∙ sym (append-nil out)))

-- From a driver that is ready (rings in order, bound tasks with a signal), no sequence of calls of
-- `uart_async_putc` and `uart_async_getc` and of interrupts ends in a panic. What has then been written to the transmit
-- register, followed by what waits in the transmit ring, is what it was before followed by the bytes
-- that `uart_async_putc` has taken, in order: none is lost, repeated or overtaken.
pub run_steps_order :
    (steps : List Step) {tb rb : List ℕ} {u : Uart}
    → IsReady tb rb u
    → (taken tb' rb' : List ℕ) × (u' : Uart) × (run_steps steps u ≡ some (taken, u'))
      × IsReady tb' rb' u'
      × (u'.sent ++ tx_waiting tb' u' ≡ (u.sent ++ tx_waiting tb u) ++ taken)
unfolding run_steps
run_steps_order [] {tb} {rb} {u} v =
    ([], tb, rb, u, refl, v, sym (append-nil (u.sent ++ tx_waiting tb u)))
run_steps_order (s ∷ steps) {tb} {rb} {u} v =
    let out = u.sent ++ tx_waiting tb u in
    let (cs, tb1, rb1, u1, e1, (v1, same1)) = step-Kept s (v, refl) in
    let (ds, tb', rb', u', e', v', same') = run_steps_order steps v1 in
    (
      cs ++ ds,
      tb',
      rb',
      u',
      rw (e1, e', run_steps) refl,
      v',
      same' ∙ ap (λ l. l ++ ds) same1 ∙ append_assoc out cs ds,
    )
