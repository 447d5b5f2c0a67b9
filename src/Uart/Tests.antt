-- ===== src/Uart/Tests.antt =====
-- A run of the driver, and the theorems at rings that have wrapped.
use rewind_os.Base.{ℕ, ◌≡◌, refl, true, false, Option, some, none, List, [], ◌∷◌, ◌++◌, arith}
use rewind_os.Event.{eq_init}
use rewind_os.Sched.{Ao, Sched, sched_post_isr}
use rewind_os.Uart.{Uart, drv_idle, drv_in_progress, uart_ctx_valid, rx_next, notify_rx, rx_store}
use rewind_os.Uart.Irq.{usart6_irq_handler, irq_body, irq_rx, irq_tx, irq_tc, irq_overrun}
use rewind_os.Uart.Calls.{uart_async_putc, uart_async_getc}
use rewind_os.Base.{replicate}
use rewind_os.Bump.{Heap}
use rewind_os.Bump.Blocks.{IsValid}
use rewind_os.Uart.Ready.{IsReady, tx_waiting}
use rewind_os.Uart.Order.{Step, put, get, interrupt, run_steps, step, run_steps_order}

abbrev blank : Ao
blank = record {
  id = 0;
  prio = 0;
  reserved = 0;
  q = eq_init none 0;
  dispatch = none;
  state = none;
  flags = 0;
  rtc_max_ticks = 0;
  events_handled = 0;
  name = none;
}

abbrev no_tasks : Sched
no_tasks = record {
  aos = λ i. blank;
  table = λ i. none;
  ready_bitmap = 0;
  rr_cursor = λ i. 0;
  idle_hook = none;
}

-- One byte waits to be sent, and the receive task that is bound is not registered.
abbrev line : Uart
line = record {
  tx_buf = some (1 ∷ 2 ∷ 3 ∷ []);
  tx_head = 0;
  tx_tail = 2;
  tx_size = 3;
  tx_status = drv_in_progress;
  rx_buf = some (0 ∷ 0 ∷ []);
  rx_head = 1;
  rx_tail = 1;
  rx_size = 2;
  rx_status = drv_idle;
  rx_event_pending = 0;
  rx_event_post_fail = 0;
  rx_overrun_count = 0;
  rx_bound = true;
  ao_id = 0;
  rx_sig = 7;
  tx_bound = false;
  tx_ao_id = 0;
  tx_sig = 0;
  cr1 = 128;
  sent = 9 ∷ [];
  sched = no_tasks;
}

line-IsReady : IsReady (1 ∷ 2 ∷ 3 ∷ []) (0 ∷ 0 ∷ []) line
line-IsReady = record {
  has_tx = refl;
  has_rx = refl;
  tx = record {
    storage = omega arith;
    word = omega arith;
    head_in = omega arith;
    tail_in = omega arith;
  };
  rx = record {
    storage = omega arith;
    word = omega arith;
    head_in = omega arith;
    tail_in = omega arith;
  };
  rx_named = λ e. ground arith;
  tx_named = λ e. ground arith;
}

-- Two characters, of which the second finds the ring full, a byte received, and two bytes sent.
abbrev script : List Step
script = put 65 ∷ put 66 ∷ interrupt 32 300 ∷ interrupt 128 0 ∷ get ∷ interrupt 128 0 ∷ []

abbrev sent_of : Option (List ℕ × Uart) → List ℕ × List ℕ
sent_of none = ([], [])
sent_of (some (taken, u)) = (taken, u.sent)

script_runs : sent_of (run_steps script line) ≡ (65 ∷ [], 9 ∷ 3 ∷ 65 ∷ [])
unfolding run_steps step uart_async_putc uart_ctx_valid usart6_irq_handler irq_body irq_rx rx_next
    notify_rx rx_store irq_tc irq_tx irq_overrun sched_post_isr uart_async_getc
script_runs = refl

run_steps_order_example :
    (taken tb rb : List ℕ) × (u : Uart) × (run_steps script line ≡ some (taken, u))
    × IsReady tb rb u
    × (u.sent ++ tx_waiting tb u ≡ (line.sent ++ tx_waiting (1 ∷ 2 ∷ 3 ∷ []) line) ++ taken)
run_steps_order_example = run_steps_order script line-IsReady

abbrev heap : Heap
heap = record { start = 1024; limit = 2048; brk = 1024 }

heap-IsValid : IsValid heap
heap-IsValid = record {
  above = omega arith;
  below = omega arith;
  word = omega arith;
  aligned = refl;
}

abbrev zeros : ℕ → ℕ → List ℕ
zeros p n = replicate n 0
