-- ===== src/Uart/Irq.antt =====
-- The interrupt handler of src/drivers/uart/uart_async.c.
use Prim.Native.Nat.{bit_and}
use rewind_os.Base.{
  ℕ, ◌+◌, ◌%◌, ◌^◌, Option, none, some, List, [], ◌∷◌, ◌++◌, if◌then◌else◌, ◌==◌, ◌&&◌, ◌||◌,
  get_or,
}
use rewind_os.Sched.{sched_post_isr}
use rewind_os.Uart.{
  Uart, drv_idle, uart_ctx_valid, has_flag, clear_flag, set_flag, tcie, txeie, isr_fe, isr_nf,
  isr_ore, isr_rxne, isr_tc, isr_txe, signal, count_overrun, notify_rx, rx_next, rx_store,
}

-- The branch for a received byte.
unfoldable pub irq_receive : ℕ → List ℕ → Uart → Option Uart
irq_receive rdr b u =
    if rx_next u == u.rx_tail
    then some (count_overrun u)
    else notify_rx sched_post_isr (rx_store b (bit_and rdr 255) u)

-- The first `if` and its `else if`: a byte with a framing or noise error is thrown away.
unfoldable pub irq_rx : ℕ → ℕ → List ℕ → Uart → Option Uart
unfolding irq_receive
irq_rx status rdr b u =
    if has_flag status isr_rxne && (has_flag status isr_fe || has_flag status isr_nf)
    then some (count_overrun u)
    else if has_flag status isr_rxne
    then irq_receive rdr b u
    else some u

unfoldable pub irq_overrun : ℕ → Uart → Uart
irq_overrun status u = if has_flag status isr_ore then count_overrun u else u

-- The transmit register is empty: the next byte goes out, or the interrupt is switched over.
unfoldable pub irq_tx : ℕ → ℕ → List ℕ → Uart → Uart
irq_tx status cr1 b u =
    if has_flag status isr_txe && has_flag cr1 txeie
    then if u.tx_head == u.tx_tail
      then record u { cr1 = set_flag (clear_flag cr1 txeie) tcie }
      else record u {
        sent = u.sent ++ (get_or b u.tx_tail 0 ∷ []);
        tx_tail = (u.tx_tail + 1) % u.tx_size % 2 ^ 16;
      }
    else u

-- The transmission is complete.
unfoldable pub irq_tc : ℕ → ℕ → Uart → Option Uart
irq_tc status cr1 u =
    let idle = record u { cr1 = clear_flag u.cr1 tcie; tx_status = drv_idle } in
    if has_flag status isr_tc && has_flag cr1 tcie
    then if u.tx_bound
      then if u.tx_sig == 0
        then none
        else some (record idle { sched = (sched_post_isr u.sched u.tx_ao_id (signal u.tx_sig)).1 })
      else some idle
    else some u

-- The handler behind its first test.
unfoldable pub irq_body : ℕ → ℕ → List ℕ → List ℕ → Uart → Option Uart
irq_body status rdr tb rb u = elim (irq_rx status rdr rb u) [
  | none ↦ none
  | some u1 ↦ irq_tc status u.cr1 (irq_tx status u.cr1 tb (irq_overrun status u1))
]

-- `USART6_IRQHandler`, with ISR `status` and RDR `rdr`.
unfoldable pub usart6_irq_handler : ℕ → ℕ → Uart → Option Uart
usart6_irq_handler status rdr u = elim u.tx_buf [
  | none ↦ none
  | some tb ↦ elim u.rx_buf [
    | none ↦ none
    | some rb ↦ if uart_ctx_valid u then irq_body status rdr tb rb u else none
  ]
]
