-- ===== src/Uart/Init.antt =====
-- `uart_async_init` of src/drivers/uart/uart_async.c takes the memory of the two rings from the allocator.
use rewind_os.Base.{
  ℕ, ◌+◌, ◌^◌, ◌≤◌, ◌<◌, ◌≡◌, refl, ap, ◌∙◌, false, Option, none, some, List, [], arith, length,
}
use rewind_os.Bump.{Heap, bump_alloc}
use rewind_os.Bump.Blocks.{IsValid, bump_alloc_lem}
use rewind_os.Uart.{Uart, drv_idle, set_flag, rxneie}
use rewind_os.Uart.Rings.{queue_empty}
use rewind_os.Uart.Ready.{IsReady, tx_waiting}

abbrev pub uart_tx_buf_size : ℕ
uart_tx_buf_size = 256

abbrev pub uart_rx_buf_size : ℕ
uart_rx_buf_size = 128

-- The part behind the test of the two pointers.
unfoldable pub init_with : List ℕ → List ℕ → Uart → Uart
init_with tb rb u = record u {
  tx_buf = some tb;
  rx_buf = some rb;
  tx_size = uart_tx_buf_size;
  rx_size = uart_rx_buf_size;
  tx_head = 0;
  tx_tail = 0;
  rx_head = 0;
  rx_tail = 0;
  tx_status = drv_idle;
  rx_status = drv_idle;
  rx_event_pending = 0;
  rx_event_post_fail = 0;
  rx_overrun_count = 0;
  rx_bound = false;
  ao_id = 0;
  rx_sig = 0;
  tx_bound = false;
  tx_ao_id = 0;
  tx_sig = 0;
  cr1 = set_flag u.cr1 rxneie;
}

-- `memory p n` is the content of the `n` bytes at the address `p`. The pointers to the two blocks and
-- the heap behind them; a panic is `none`.
unfoldable pub init_rings :
    (ℕ → ℕ → List ℕ) → Uart → Option ℕ → Option ℕ × Heap → Option (Heap × Uart)
unfolding init_with
init_rings memory u none rx = none
init_rings memory u (some p) (none, h) = none
init_rings memory u (some p) (some q, h) =
    some (h, init_with (memory p uart_tx_buf_size) (memory q uart_rx_buf_size) u)

unfoldable pub uart_async_init : (ℕ → ℕ → List ℕ) → Heap → Uart → Option (Heap × Uart)
unfolding init_rings
uart_async_init memory h u =
    let (tx, h1) = bump_alloc uart_tx_buf_size h in
    init_rings memory u tx (bump_alloc uart_rx_buf_size h1)

-- On a valid heap with 384 bytes left and a limit below `2 ^ 31`, where `n` bytes of memory are read as
-- a list of that length, `uart_async_init` does not panic: it leaves a driver that is ready, with
-- nothing to send and nothing more written to the line, and takes those 384 bytes from the heap,
-- which stays valid.
pub uart_async_init_lem :
    (memory : ℕ → ℕ → List ℕ) {h : Heap} (u : Uart)
    → ((p n : ℕ) → length (memory p n) ≡ n)
    → IsValid h
    → h.limit < 2 ^ 31
    → h.brk + 384 ≤ h.limit
    → (tb rb : List ℕ) × (h' : Heap) × (u' : Uart) × (uart_async_init memory h u ≡ some (h', u'))
      × IsReady tb rb u'
      × (tx_waiting tb u' ≡ [])
      × (u'.sent ≡ u.sent)
      × (h'.brk ≡ h.brk + 384)
      × IsValid h'
unfolding init_with init_rings uart_async_init
uart_async_init_lem memory {h} u sized v word room =
    let (full, fits, v1) = bump_alloc_lem uart_tx_buf_size v (omega arith) in
    let e1 = fits (omega arith) in
    let h1 = record h { brk = h.brk + 256 } in
    let v1' : IsValid h1 = rw e1 at v1 in
    let (full', fits', v2) = bump_alloc_lem uart_rx_buf_size v1' (omega arith) in
    let e2 = fits' (omega arith) in
    let h2 = record h1 { brk = h1.brk + 128 } in
    let v2' : IsValid h2 = rw e2 at v2 in
    (
      memory h.brk 256,
      memory (h.brk + 256) 128,
      h2,
      init_with (memory h.brk 256) (memory (h.brk + 256) 128) u,
      ap (λ r. init_rings memory u r.0 (bump_alloc uart_rx_buf_size r.1)) e1
          ∙ ap (init_rings memory u (some h.brk)) e2,
      record {
        has_tx = refl;
        has_rx = refl;
        tx = record {
          storage = omega (arith, sized h.brk 256);
          word = omega arith;
          head_in = omega arith;
          tail_in = omega arith;
        };
        rx = record {
          storage = omega (arith, sized (h.brk + 256) 128);
          word = omega arith;
          head_in = omega arith;
          tail_in = omega arith;
        };
        rx_named = λ e. cc e;
        tx_named = λ e. cc e;
      },
      queue_empty (memory h.brk 256) 256 0,
      refl,
      omega arith,
      v2',
    )
