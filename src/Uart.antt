-- ===== src/Uart.antt =====
-- src/drivers/uart/uart_async.c and include/uart_async.h: the two rings between the program and the
-- serial line, the interrupt handler, and the events that the handler posts.
-- `Uart` holds `g_uart_ctx`, the static variables, the control register CR1 and the bytes written
-- to TDR so far. The interrupt handler gets the values that it reads from ISR and RDR. A write to ICR
-- clears flags of ISR, which is read anew at the next interrupt, so it has no counterpart; the same
-- holds for the interrupt controller, since a call with the interrupt masked is one step.
-- There is one scheduler: a pointer to it is a Boolean, true if it is not null. A panic is `none`.
pub mod Irq
pub mod Calls
pub mod Rings
pub mod Ready
pub mod Order
pub mod Init
mod Tests
use Prim.Native.Nat.{bit_and, bit_or}
use rewind_os.Base.{
  ℕ, zero, suc, ◌+◌, ◌-◌, ◌%◌, ◌^◌, Bool, true, false, Option, none, some, List, [], ◌∷◌, ◌++◌,
  if◌then◌else◌, leb, ◌==◌, ◌&&◌, ◌||◌, not, get_or, set, take,
}
use rewind_os.Event.{Event}
use rewind_os.Sched.{Sched, SchedStatus, is_null, sched_post, sched_post_isr}

-- `drv_status_t`
pub data DrvStatus : Type 0 where
  drv_idle drv_in_progress drv_complete drv_error : DrvStatus

pub record Uart : Type 0 where
  pub tx_buf : Option (List ℕ)
  pub tx_head : ℕ  -- uint16
  pub tx_tail : ℕ  -- uint16
  pub tx_size : ℕ  -- uint16
  pub tx_status : DrvStatus
  pub rx_buf : Option (List ℕ)
  pub rx_head : ℕ  -- uint16
  pub rx_tail : ℕ  -- uint16
  pub rx_size : ℕ  -- uint16
  pub rx_status : DrvStatus
  pub rx_event_pending : ℕ  -- uint8
  pub rx_event_post_fail : ℕ  -- uint32
  pub rx_overrun_count : ℕ  -- uint32
  pub rx_bound : Bool  -- `g_uart_sched`
  pub ao_id : ℕ
  pub rx_sig : ℕ
  pub tx_bound : Bool  -- `g_uart_tx_sched`
  pub tx_ao_id : ℕ
  pub tx_sig : ℕ
  pub cr1 : ℕ
  pub sent : List ℕ
  pub sched : Sched

unfoldable pub uart_ctx_valid : Uart → Bool
uart_ctx_valid u =
    not (is_null u.tx_buf || is_null u.rx_buf)
    && (not (u.tx_size == 0 || u.rx_size == 0)
        && (not (leb u.tx_size u.tx_head || leb u.tx_size u.tx_tail)
            && not (leb u.rx_size u.rx_head || leb u.rx_size u.rx_tail)))

-- Bit `k` of a register.
abbrev pub has_flag : ℕ → ℕ → Bool
has_flag register k = not (bit_and register (2 ^ k) == 0)

abbrev pub clear_flag : ℕ → ℕ → ℕ
clear_flag register k = bit_and register (2 ^ 32 - 1 - 2 ^ k)

abbrev pub set_flag : ℕ → ℕ → ℕ
set_flag register k = bit_or register (2 ^ k)

-- The bits RXNEIE, TCIE, TXEIE of CR1, and FE, NF, ORE, RXNE, TC, TXE of ISR.
abbrev pub rxneie : ℕ
rxneie = 5

abbrev pub tcie : ℕ
tcie = 6

abbrev pub txeie : ℕ
txeie = 7

abbrev pub isr_fe : ℕ
isr_fe = 1

abbrev pub isr_nf : ℕ
isr_nf = 2

abbrev pub isr_ore : ℕ
isr_ore = 3

abbrev pub isr_rxne : ℕ
isr_rxne = 5

abbrev pub isr_tc : ℕ
isr_tc = 6

abbrev pub isr_txe : ℕ
isr_txe = 7

abbrev pub signal : ℕ → Event
signal sig = record { sig = sig; src = 0; arg0 = 0; arg1 = 0; tick = 0 }

abbrev pub count_overrun : Uart → Uart
count_overrun u = record u { rx_overrun_count = (u.rx_overrun_count + 1) % 2 ^ 32 }

-- The status of a post of the receive event; `rx_event_pending` has been set before.
unfoldable pub rx_posted : SchedStatus × Sched → Uart → Uart
rx_posted (SchedStatus.ok, s) u = record u { rx_event_pending = 1; sched = s }
rx_posted (_, s) u = record u {
  rx_event_pending = 0;
  rx_event_post_fail = (u.rx_event_post_fail + 1) % 2 ^ 32;
  sched = s;
}

-- The receive event is posted to the task that is bound, unless one is pending.
unfoldable pub notify_rx : (Sched → ℕ → Event → SchedStatus × Sched) → Uart → Option Uart
unfolding rx_posted
notify_rx post u =
    if u.rx_bound && u.rx_event_pending == 0
    then if u.rx_sig == 0 then none else some (rx_posted (post u.sched u.ao_id (signal u.rx_sig)) u)
    else some u

-- A byte is put into the receive ring, unless that is full.
unfoldable pub rx_next : Uart → ℕ
rx_next u = (u.rx_head + 1) % u.rx_size % 2 ^ 16

unfoldable pub rx_store : List ℕ → ℕ → Uart → Uart
unfolding rx_next
rx_store b c u = record u {
  rx_buf = some (set b u.rx_head c);
  rx_head = rx_next u;
  rx_status = drv_in_progress;
}
