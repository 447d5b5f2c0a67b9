-- ===== src/Log/Keep.antt =====
-- The log ring keeps the last 512 bytes that were written, in order.
use rewind_os.Base.{
  ℕ, zero, suc, ◌+◌, ◌-◌, ◌%◌, ◌^◌, ◌≤◌, ◌<◌, ◌≡◌, ◌≢◌, refl, sym, ap, ◌∙◌, none, some, List, [],
  ◌∷◌, true, false, ◌++◌, arith, length, get_or, set, take, drop, length-set, length-append,
  length-drop, drop-append, drop-drop, take_all, drop_all, append_assoc, append-nil, if◌then◌else◌,
  ltb, ◌==◌,
}
use native.Mathlib.Decide.{dec_lt, ℕ_discrete}
use rewind_os.Ring.{
  window, length-window, window_of_pos, window-set, advance_head, advance_tail, shift_index,
  take-window, drop-window, moved_head,
}
use rewind_os.Log.{
  Log, ok, err, log_buf_size, log_putc, put_all, log_write, read_loop, log_read, log_clear,
}

-- The indices lie in the buffer, and the write index stands `count` places after the read index.
pub record IsValid (g : Log) : Type 0 where
  pub storage : length g.buf ≡ log_buf_size
  pub tail_in : g.tail < log_buf_size
  pub count_in : g.count ≤ log_buf_size
  pub head_at : g.head ≡ (g.tail + g.count) % log_buf_size

-- The bytes that can be read, the oldest first.
abbrev pub contents : Log → List ℕ
contents g = window 0 g.buf log_buf_size g.tail g.count

-- The last `n` elements.
abbrev pub keep_last : ℕ → List ℕ → List ℕ
keep_last n l = drop (length l - n) l

pub length-contents : (g : Log) → length (contents g) ≡ g.count
length-contents g = length-window 0 g.buf log_buf_size g.tail g.count

-- The ring with its oldest byte given up, if it is full.
make_room : Log → Log
make_room g =
    if g.count == log_buf_size
    then record g { tail = (g.tail + 1) % log_buf_size; count = g.count - 1 }
    else g

drop_one : (l : List ℕ) (x : ℕ) (m : List ℕ) → l ≡ x ∷ m → drop 1 l ≡ m
drop_one l x m e = rw e

make_room_lem :
    {g : Log}
    → IsValid g
    → IsValid (make_room g)
      × ((make_room g).count < log_buf_size)
      × (contents (make_room g) ≡ drop (length (contents g) + 1 - log_buf_size) (contents g))
unfolding make_room
make_room_lem {g} v = elim (ℕ_discrete g.count log_buf_size) [
  | yes full ↦
      let e : length (contents g) + 1 - log_buf_size ≡ 1 = omega (arith, length-contents g) in
      let t : (g.count == log_buf_size) ≡ true = ground arith in
      let pos : 0 < g.count = omega arith in
      rw (e, t)
        (
          record {
            storage = v.storage;
            tail_in = omega arith;
            count_in = omega (arith, v);
            head_at = advance_tail log_buf_size g.tail g.count g.head pos v.head_at;
          },
          omega arith,
          sym (
              drop_one (contents g) (get_or g.buf g.tail 0)
                (window 0 g.buf log_buf_size ((g.tail + 1) % log_buf_size) (g.count - 1))
                (window_of_pos 0 g.buf log_buf_size g.tail g.count pos)),
        )
  | no room ↦
      let e : length (contents g) + 1 - log_buf_size ≡ 0 = omega (arith, length-contents g, v) in
      let t : (g.count == log_buf_size) ≡ false = ground arith in
      rw (e, t) (v, omega (arith, v), refl)
]

-- `log_putc` in terms of the ring that has room.
putc_eq :
    (c : ℕ) {g : Log}
    → IsValid g
    → let g' = make_room g in
      log_putc c g ≡ record g' {
        buf = set g'.buf g'.head c;
        head = (g'.head + 1) % log_buf_size;
        count = g'.count + 1;
      }
unfolding log_putc make_room
putc_eq c {g} v = ground (arith, v)

putc_contents :
    (c : ℕ) {g : Log}
    → IsValid g
    → let g' = make_room g in
      window 0 (set g'.buf g'.head c) log_buf_size g'.tail (g'.count + 1)
      ≡ keep_last log_buf_size (contents g ++ (c ∷ []))
putc_contents c {g} v =
    let (v', room, kept) = make_room_lem v in
    let g' = make_room g in
    let l = contents g in
    let n1 : g'.count + 1 ≡ suc g'.count = omega arith in
    let n2 : length (l ++ (c ∷ [])) ≡ length l + 1 = length-append l (c ∷ []) in
    let k = length l + 1 - log_buf_size in
    let small : k ≤ length l = omega arith in
    rw (n1, n2, drop-append k l (c ∷ []) small, ← kept)
      (window-set 0 g'.buf log_buf_size c g'.count g'.tail g'.head (omega (arith, v'.storage))
        v'.tail_in room v'.head_at)

keep_last_twice : (n : ℕ) (l m : List ℕ) → keep_last n (keep_last n l ++ m) ≡ keep_last n (l ++ m)
keep_last_twice n l m =
    let k = length l - n in
    let small : k ≤ length l = omega arith in
    rw (← drop-append k l m small, drop-drop, length-drop, length-append)
      (ap (λ j. drop j (l ++ m)) (omega arith))

pub log_putc_lem :
    (c : ℕ) {g : Log}
    → IsValid g
    → IsValid (log_putc c g)
      × (contents (log_putc c g) ≡ keep_last log_buf_size (contents g ++ (c ∷ [])))
log_putc_lem c {g} v =
    let (v', room, kept) = make_room_lem v in
    let g' = make_room g in
    rw (putc_eq c v) (
      record {
        storage = rw length-set v'.storage;
        tail_in = v'.tail_in;
        count_in = omega arith;
        head_at = advance_head log_buf_size g'.tail g'.count g'.head v'.head_at;
      },
      putc_contents c v,
    )

pub put_all_lem :
    (cs : List ℕ) {g : Log}
    → IsValid g
    → IsValid (put_all cs g) × (contents (put_all cs g) ≡ keep_last log_buf_size (contents g ++ cs))
unfolding put_all
put_all_lem [] {g} v =
    let none_over : length (contents g ++ []) - log_buf_size ≡ 0 =
      omega (arith, length-append (contents g) [], length-contents g, v) in
    (v, rw (none_over, append-nil))
put_all_lem (c ∷ cs) {g} v =
    let (v', last) = log_putc_lem c v in
    let (v'', all) = put_all_lem cs v' in
    (
      v'',
      all
          ∙ ap (λ l. keep_last log_buf_size (l ++ cs)) last
          ∙ keep_last_twice log_buf_size (contents g ++ (c ∷ [])) cs
          ∙ ap (keep_last log_buf_size) (append_assoc (contents g) (c ∷ []) cs),
    )

-- Writing `len` bytes to a valid log ring leaves the last 512 bytes of what it held followed by
-- those bytes, whatever their number. A null pointer or the length 0 is refused and changes nothing.
pub log_write_lem :
    (s : List ℕ) (len : ℕ) {g : Log}
    → IsValid g
    → (log_write none len g ≡ (err, g))
      × (log_write (some s) 0 g ≡ (err, g))
      × IsValid (log_write (some s) len g).1
      × (len ≢ 0
          → ((log_write (some s) len g).0 ≡ ok)
            × (contents (log_write (some s) len g).1
                ≡ keep_last log_buf_size (contents g ++ take len s)))
unfolding log_write
log_write_lem s len {g} v = elim (ℕ_discrete len 0) [
  | yes z ↦ let t : (len == 0) ≡ true = ground arith in (refl, refl, rw t v, (λ ne. absurd (ne z)))
  | no nz ↦
      let t : (len == 0) ≡ false = ground arith in
      let (v', all) = put_all_lem (take len s) v in (refl, refl, rw t v', (λ ne. rw t (refl, all)))
]

-- The loop of `log_read` takes the oldest bytes in order.
read_loop_lem :
    (n : ℕ) (g : Log)
    → g.tail < log_buf_size
    → let (out, g') = read_loop n g in
      (out ≡ window 0 g.buf log_buf_size g.tail n)
      × (g' ≡ record g { tail = (g.tail + n) % log_buf_size })
unfolding read_loop
read_loop_lem zero g t = (refl, ap (λ k. record g { tail = k }) (omega arith))
read_loop_lem (suc n) g t =
    let e : (g.tail + 1) % log_buf_size % 2 ^ 16 ≡ (g.tail + 1) % log_buf_size = omega arith in
    let g1 = record g { tail = (g.tail + 1) % log_buf_size } in
    let (out, after) = read_loop_lem n g1 (omega arith) in
    rw e (
      ap (λ l. get_or g.buf g.tail 0 ∷ l) out,
      after ∙ ap (λ k. record g { tail = k }) (sym (shift_index log_buf_size g.tail n)),
    )

-- `log_read` once the number `n` of bytes to read is known.
read_n :
    (n : ℕ) {g : Log}
    → IsValid g
    → n ≤ g.count
    → let (out, g1) = read_loop n g in
      let g' = record g1 { count = (g.count + 2 ^ 16 - n) % 2 ^ 16 } in
      (out ≡ take n (contents g)) × (contents g' ≡ drop n (contents g)) × IsValid g'
read_n n {g} v le =
    let (out, after) = read_loop_lem n g v.tail_in in
    let left : (g.count + 2 ^ 16 - n) % 2 ^ 16 ≡ g.count - n = omega (arith, v) in
    rw (left, after)
      (
        out ∙ sym (take-window 0 g.buf log_buf_size g.tail n g.count le),
        sym (drop-window 0 g.buf log_buf_size g.tail n g.count v.tail_in le),
        record {
          storage = v.storage;
          tail_in = omega arith;
          count_in = omega (arith, v);
          head_at = v.head_at ∙ moved_head log_buf_size g.tail n g.count le;
        },
      )

-- Reading from a valid log ring hands out the oldest bytes in order, as many as are asked for and
-- there, and leaves the others in the ring.
pub log_read_lem :
    (max : ℕ) {g : Log}
    → IsValid g
    → let (out, g') = log_read max g in
      (out ≡ take max (contents g)) × (contents g' ≡ drop max (contents g)) × IsValid g'
unfolding log_read
log_read_lem max {g} v = elim (ℕ_discrete max 0) [
  | yes z ↦ rw z (refl, refl, v)
  | no nz ↦
      let t : (max == 0) ≡ false = ground arith in
      elim (dec_lt g.count max) [
        | no enough ↦
            let u : ltb g.count max ≡ false = ground arith in rw (t, u) (read_n max v (omega arith))
        | yes short ↦
            let u : ltb g.count max ≡ true = ground arith in
            let (out, left, v') = read_n g.count v (omega arith) in
            let all : length (contents g) ≤ max = omega (arith, length-contents g) in
            let none_left : length (contents g) ≤ g.count = omega (arith, length-contents g) in
            rw (t, u)
              (
                out ∙ take_all g.count (contents g) none_left ∙ sym (take_all max (contents g) all),
                left
                    ∙ drop_all g.count (contents g) none_left
                    ∙ sym (drop_all max (contents g) all),
                v',
              )
      ]
]

-- `log_clear` empties the ring.
pub log_clear_lem : {g : Log} → IsValid g → IsValid (log_clear g) × (contents (log_clear g) ≡ [])
unfolding log_clear
log_clear_lem v = (
  record { storage = v.storage; tail_in = omega arith; count_in = omega arith; head_at = refl },
  refl,
)
