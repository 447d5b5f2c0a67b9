-- ===== src/Uart/Ready.antt =====
-- A driver that is set up: the interrupt handler does not panic, and keeps it so.
use Prim.Native.Nat.{bit_and}
use rewind_os.Base.{
  ℕ, ◌+◌, ◌%◌, ◌^◌, ◌≡◌, ◌≢◌, refl, sym, ap, ◌∙◌, Bool, true, false, Option, none, some, List, [],
  ◌∷◌, ◌++◌, if◌then◌else◌, ◌==◌, ◌&&◌, ◌||◌, get_or, set, arith, append_assoc, if-cases,
}
use native.Mathlib.Decide.{ℕ_discrete}
use rewind_os.Event.{Event}
use rewind_os.Sched.{
  Sched, SchedStatus, ok, err_param, err_full, err_exists, err_not_found, err_queue_full,
  err_disabled, sched_post_isr,
}
use rewind_os.Uart.{
  Uart, drv_idle, uart_ctx_valid, has_flag, clear_flag, set_flag, tcie, txeie, isr_fe, isr_nf,
  isr_ore, isr_rxne, isr_tc, isr_txe, signal, count_overrun, notify_rx, rx_next, rx_store,
  rx_posted,
}
use rewind_os.Uart.Irq.{
  irq_receive, irq_rx, irq_tx, irq_tc, irq_overrun, irq_body, usart6_irq_handler,
}
use rewind_os.Uart.Rings.{IsRing, queue, put-queue, take-queue, next_index}

-- The rings are in order, with the storage `tb` and `rb`, and a task that is bound is bound with a
-- signal that is not 0.
pub record IsReady (tb rb : List ℕ) (u : Uart) : Type 0 where
  pub has_tx : u.tx_buf ≡ some tb
  pub has_rx : u.rx_buf ≡ some rb
  pub tx : IsRing tb u.tx_size u.tx_head u.tx_tail
  pub rx : IsRing rb u.rx_size u.rx_head u.rx_tail
  pub rx_named : u.rx_bound ≡ true → u.rx_sig ≢ 0
  pub tx_named : u.tx_bound ≡ true → u.tx_sig ≢ 0

-- The bytes that wait to be sent.
abbrev pub tx_waiting : List ℕ → Uart → List ℕ
tx_waiting tb u = queue tb u.tx_size u.tx_head u.tx_tail

-- The driver is ready, and what went out and what waits is `out`.
abbrev pub Kept : List ℕ → List ℕ → List ℕ → Uart → Type 0
Kept out tb rb u = IsReady tb rb u × (u.sent ++ tx_waiting tb u ≡ out)

pub ready_valid : {tb rb : List ℕ} {u : Uart} → IsReady tb rb u → uart_ctx_valid u ≡ true
unfolding uart_ctx_valid
ready_valid {tb} {rb} {u} v = let a = v.tx in let b = v.rx in rw (v.has_tx, v.has_rx) (ground arith)

-- A change of the fields that do not matter.
same_rings :
    {out tb rb : List ℕ} (u u' : Uart)
    → Kept out tb rb u
    → u' ≡ record u {
      rx_status = u'.rx_status;
      tx_status = u'.tx_status;
      rx_event_pending = u'.rx_event_pending;
      rx_event_post_fail = u'.rx_event_post_fail;
      rx_overrun_count = u'.rx_overrun_count;
      cr1 = u'.cr1;
      sched = u'.sched;
    }
    → Kept out tb rb u'
same_rings u u' (v, e) same = rw same (
  record {
    has_tx = v.has_tx;
    has_rx = v.has_rx;
    tx = v.tx;
    rx = v.rx;
    rx_named = v.rx_named;
    tx_named = v.tx_named;
  },
  e,
)

rx_posted-Kept :
    {out tb rb : List ℕ} {u : Uart} (rc : SchedStatus) (s : Sched)
    → Kept out tb rb u
    → Kept out tb rb (rx_posted (rc, s) u)
unfolding rx_posted
rx_posted-Kept {u = u} ok s k = same_rings u (rx_posted (ok, s) u) k refl
rx_posted-Kept {u = u} err_param s k = same_rings u (rx_posted (err_param, s) u) k refl
rx_posted-Kept {u = u} err_full s k = same_rings u (rx_posted (err_full, s) u) k refl
rx_posted-Kept {u = u} err_exists s k = same_rings u (rx_posted (err_exists, s) u) k refl
rx_posted-Kept {u = u} err_not_found s k = same_rings u (rx_posted (err_not_found, s) u) k refl
rx_posted-Kept {u = u} err_queue_full s k = same_rings u (rx_posted (err_queue_full, s) u) k refl
rx_posted-Kept {u = u} err_disabled s k = same_rings u (rx_posted (err_disabled, s) u) k refl

both_left : (a b : Bool) → (a && b) ≡ true → a ≡ true
both_left true b e = refl
both_left false b e = e

pub notify_rx-Kept :
    {out tb rb : List ℕ} {u : Uart} (post : Sched → ℕ → Event → SchedStatus × Sched)
    → Kept out tb rb u
    → (u' : Uart) × (notify_rx post u ≡ some u') × Kept out tb rb u'
unfolding notify_rx
notify_rx-Kept {out} {tb} {rb} {u} post k =
    let posted = rx_posted (post u.sched u.ao_id (signal u.rx_sig)) u in
    let Goal = λ (o : Option Uart). (u' : Uart) × (o ≡ some u') × Kept out tb rb u' in
    if-cases Goal (u.rx_bound && u.rx_event_pending == 0)
      (if u.rx_sig == 0 then none else some posted) (some u)
      (λ e.
        let nz : (u.rx_sig == 0) ≡ false =
          ground (arith, k.0.rx_named (both_left u.rx_bound (u.rx_event_pending == 0) e)) in
        rw nz (
          posted,
          refl,
          rx_posted-Kept (post u.sched u.ao_id (signal u.rx_sig)).0
              (post u.sched u.ao_id (signal u.rx_sig)).1 k,
        ))
      (λ e. (u, refl, k))

pub rx_store-Kept :
    {out tb rb : List ℕ} {u : Uart} (c : ℕ)
    → Kept out tb rb u
    → rx_next u ≢ u.rx_tail
    → Kept out tb (set rb u.rx_head c) (rx_store rb c u)
unfolding rx_store rx_next
rx_store-Kept c (v, e) ne = (
  record {
    has_tx = v.has_tx;
    has_rx = refl;
    tx = v.tx;
    rx = (put-queue c v.rx ne).0;
    rx_named = v.rx_named;
    tx_named = v.tx_named;
  },
  e,
)

-- A handler's part ends with no panic, and the storage `rb'` for the bytes received.
abbrev Ends : List ℕ → List ℕ → Option Uart → Type 0
Ends out tb o = (rb' : List ℕ) × (u' : Uart) × (o ≡ some u') × Kept out tb rb' u'

overrun-Kept : {out tb rb : List ℕ} {u : Uart} → Kept out tb rb u → Kept out tb rb (count_overrun u)
overrun-Kept {u = u} k = same_rings u (count_overrun u) k refl

irq_receive-Ends :
    {out tb rb : List ℕ} {u : Uart} (rdr : ℕ)
    → Kept out tb rb u
    → Ends out tb (irq_receive rdr rb u)
unfolding irq_receive
irq_receive-Ends {out} {tb} {rb} {u} rdr k = elim (ℕ_discrete (rx_next u) u.rx_tail) [
  | yes full ↦
      let t : (rx_next u == u.rx_tail) ≡ true = ground arith in
      rw t (rb, count_overrun u, refl, overrun-Kept k)
  | no room ↦
      let t : (rx_next u == u.rx_tail) ≡ false = ground arith in
      let c = bit_and rdr 255 in
      let (u', e, k') = notify_rx-Kept sched_post_isr (rx_store-Kept c k room) in
      rw t (set rb u.rx_head c, u', e, k')
]

irq_rx-Ends :
    {out tb rb : List ℕ} {u : Uart} (status rdr : ℕ)
    → Kept out tb rb u
    → Ends out tb (irq_rx status rdr rb u)
unfolding irq_rx
irq_rx-Ends {out} {tb} {rb} {u} status rdr k =
    let Goal = Ends out tb in
    let received = irq_receive rdr rb u in
    let flag = has_flag status isr_rxne in
    if-cases Goal (flag && (has_flag status isr_fe || has_flag status isr_nf))
      (some (count_overrun u)) (if flag then received else some u)
      (λ e. (rb, count_overrun u, refl, overrun-Kept k))
      (λ e.
        if-cases Goal flag received (some u) (λ f. irq_receive-Ends rdr k) (λ f. (rb, u, refl, k)))

irq_overrun-Kept :
    {out tb rb : List ℕ} {u : Uart} (status : ℕ)
    → Kept out tb rb u
    → Kept out tb rb (irq_overrun status u)
unfolding irq_overrun
irq_overrun-Kept {out} {tb} {rb} {u} status k =
    if-cases (Kept out tb rb) (has_flag status isr_ore) (count_overrun u) u (λ e. overrun-Kept k)
      (λ e. k)

-- The byte that goes out is the one that has waited longest.
send-Kept :
    {out tb rb : List ℕ} {u : Uart}
    → Kept out tb rb u
    → u.tx_head ≢ u.tx_tail
    → Kept out tb rb (record u {
      sent = u.sent ++ (get_or tb u.tx_tail 0 ∷ []);
      tx_tail = (u.tx_tail + 1) % u.tx_size % 2 ^ 16;
    })
send-Kept {out} {tb} {rb} {u} (v, e) ne =
    let (ring, first) = take-queue v.tx ne in
    let rest = queue tb u.tx_size u.tx_head (next_index u.tx_size u.tx_tail) in
    (
      record {
        has_tx = v.has_tx;
        has_rx = v.has_rx;
        tx = ring;
        rx = v.rx;
        rx_named = v.rx_named;
        tx_named = v.tx_named;
      },
      append_assoc u.sent (get_or tb u.tx_tail 0 ∷ []) rest ∙ ap (λ l. u.sent ++ l) (sym first) ∙ e,
    )

irq_tx-Kept :
    {out tb rb : List ℕ} {u : Uart} (status cr1 : ℕ)
    → Kept out tb rb u
    → Kept out tb rb (irq_tx status cr1 tb u)
unfolding irq_tx
irq_tx-Kept {out} {tb} {rb} {u} status cr1 k =
    let over = record u { cr1 = set_flag (clear_flag cr1 txeie) tcie } in
    let go = record u {
      sent = u.sent ++ (get_or tb u.tx_tail 0 ∷ []);
      tx_tail = (u.tx_tail + 1) % u.tx_size % 2 ^ 16;
    } in
    if-cases (Kept out tb rb) (has_flag status isr_txe && has_flag cr1 txeie)
      (if u.tx_head == u.tx_tail then over else go) u
      (λ e. elim (ℕ_discrete u.tx_head u.tx_tail) [
        | yes same ↦
            let t : (u.tx_head == u.tx_tail) ≡ true = ground arith in
            rw t (same_rings u over k refl)
        | no ne ↦ let t : (u.tx_head == u.tx_tail) ≡ false = ground arith in rw t (send-Kept k ne)
      ])
      (λ e. k)

irq_tc-Ends :
    {out tb rb : List ℕ} {u : Uart} (status cr1 : ℕ)
    → Kept out tb rb u
    → Ends out tb (irq_tc status cr1 u)
unfolding irq_tc
irq_tc-Ends {out} {tb} {rb} {u} status cr1 k =
    let idle = record u { cr1 = clear_flag u.cr1 tcie; tx_status = drv_idle } in
    let told = record idle { sched = (sched_post_isr u.sched u.tx_ao_id (signal u.tx_sig)).1 } in
    let Goal = Ends out tb in
    if-cases Goal (has_flag status isr_tc && has_flag cr1 tcie)
      (if u.tx_bound then if u.tx_sig == 0 then none else some told else some idle) (some u)
      (λ e.
        if-cases Goal u.tx_bound (if u.tx_sig == 0 then none else some told) (some idle)
          (λ bound.
            let nz : (u.tx_sig == 0) ≡ false = ground (arith, k.0.tx_named bound) in
            rw nz (rb, told, refl, same_rings u told k refl))
          (λ unbound. (rb, idle, refl, same_rings u idle k refl)))
      (λ e. (rb, u, refl, k))

pub handler-Kept :
    {out tb rb : List ℕ} {u : Uart} (status rdr : ℕ)
    → Kept out tb rb u
    → (rb' : List ℕ) × (u' : Uart) × (usart6_irq_handler status rdr u ≡ some u')
      × Kept out tb rb' u'
unfolding usart6_irq_handler irq_body
handler-Kept {out} {tb} {rb} {u} status rdr k =
    let (rb1, u1, e1, k1) = irq_rx-Ends status rdr k in
    let k2 = irq_tx-Kept status u.cr1 (irq_overrun-Kept status k1) in
    let (rb', u', e', k') = irq_tc-Ends status u.cr1 k2 in
    let body : irq_body status rdr tb rb u ≡ some u' = rw (e1, irq_body) e' in
    (rb', u', rw (k.0.has_tx, k.0.has_rx, ready_valid k.0, usart6_irq_handler) body, k')
