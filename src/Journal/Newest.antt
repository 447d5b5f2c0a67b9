-- ===== src/Journal/Newest.antt =====
-- The newest record among the blocks of the ring, told by what each block holds.
use rewind_os.Base.{
  ℕ, zero, suc, ◌+◌, ◌-◌, ◌^◌, ◌≤◌, ◌<◌, ◌≡◌, ◌⊎◌, inl, inr, refl, ap, ap₂, ◌∙◌, true, false,
  Option, none, some,
}
use mathlib.Core.Path.{subst}
use rewind_os.Base.{if◌then◌else◌, ◌==◌, arith}
use rewind_os.Journal.{Entry, jrnl_seq_newer}
use rewind_os.Journal.Calls.{newest_of}

abbrev pub newest_from : ℕ → (ℕ → Option Entry) → ℕ → Option (ℕ × ℕ) → Option (ℕ × ℕ)
newest_from zero v i best = best
newest_from (suc n) v i best = newest_from n v (i + 1) (newest_of (v i) i best)

newer_lt : (a b : ℕ) → b < a → a < 2 ^ 31 → jrnl_seq_newer a b ≡ true
unfolding jrnl_seq_newer
newer_lt a b lt fits = ground arith

newer_le : (a b : ℕ) → a ≤ b → b < 2 ^ 31 → jrnl_seq_newer a b ≡ false
unfolding jrnl_seq_newer
newer_le a b le fits = ground arith

pub newest_from-add :
    (a b : ℕ) (v : ℕ → Option Entry) (i : ℕ) (best : Option (ℕ × ℕ))
    → newest_from (a + b) v i best ≡ newest_from b v (i + a) (newest_from a v i best)
newest_from-add zero b v i best =
    let z : zero + b ≡ b = omega arith in
    let j : i ≡ i + zero = omega arith in
    ap (λ n. newest_from n v i best) z ∙ ap (λ k. newest_from b v k best) j
newest_from-add (suc a) b v i best =
    let z : suc a + b ≡ suc (a + b) = omega arith in
    let j : i + 1 + a ≡ i + suc a = omega arith in
    ap (λ n. newest_from n v i best) z
    ∙ newest_from-add a b v (i + 1) (newest_of (v i) i best)
    ∙ ap (λ k. newest_from b v k (newest_from a v (i + 1) (newest_of (v i) i best))) j

-- The block holds a record of that number.
abbrev pub Numbered : Option Entry → ℕ → Type 0
Numbered o seq = (e : Entry) × ((o ≡ some e) × (e.rec_seq ≡ seq))

moved : (v : ℕ → Option Entry) (a b x y : ℕ) → a ≡ b → x ≡ y → Numbered (v a) x → Numbered (v b) y
moved v a b x y ab xy h = subst (λ m. Numbered (v m) y) ab (subst (λ m. Numbered (v a) m) xy h)

-- A newer record takes the place, an older one does not.
newest_of-newer :
    (o : Option Entry) (i x y k : ℕ)
    → Numbered o y
    → x < y
    → y < 2 ^ 31
    → newest_of o i (some (x, k)) ≡ some (y, i)
unfolding newest_of
newest_of-newer o i x y k (e, (here, seq)) lt fits =
    let t : jrnl_seq_newer e.rec_seq x ≡ true =
      ap (λ m. jrnl_seq_newer m x) seq ∙ newer_lt y x lt fits in
    rw (here, t) (ap (λ m. some (m, i)) seq)

newest_of-older :
    (o : Option Entry) (i x k : ℕ)
    → (o ≡ none) ⊎ ((seq : ℕ) × ((seq ≤ x) × Numbered o seq))
    → x < 2 ^ 31
    → newest_of o i (some (x, k)) ≡ some (x, k)
unfolding newest_of
newest_of-older o i x k (inl e) fits = rw e refl
newest_of-older o i x k (inr (seq, (le, (e, (here, same))))) fits =
    let t : jrnl_seq_newer e.rec_seq x ≡ false =
      ap (λ m. jrnl_seq_newer m x) same ∙ newer_le seq x le fits in
    rw (here, t) refl

newest_of-first : (o : Option Entry) (i x : ℕ) → Numbered o x → newest_of o i none ≡ some (x, i)
unfolding newest_of
newest_of-first o i x (e, (here, seq)) = rw here (ap (λ m. some (m, i)) seq)

-- From block `i` on, the records are numbered from `x + 1` on: the last one is the newest.
pub newest_rising :
    (n : ℕ) (v : ℕ → Option Entry) (i x k : ℕ)
    → ((r : ℕ) → r < n → Numbered (v (i + r)) (x + 1 + r))
    → x + n < 2 ^ 31
    → newest_from n v i (some (x, k)) ≡ some (x + n, (if n == 0 then k else i + n - 1))
newest_rising zero v i x k all fits = let z : x ≡ x + zero = omega arith in ap (λ m. some (m, k)) z
newest_rising (suc n) v i x k all fits =
    let here =
      moved v (i + 0) i (x + 1 + 0) (x + 1) (omega arith) (omega arith) (all 0 (omega arith)) in
    let later = λ (r : ℕ) (lt : r < n).
      moved v (i + suc r) (i + 1 + r) (x + 1 + suc r) (x + 1 + 1 + r) (omega arith) (omega arith)
        (all (suc r) (omega arith)) in
    let last : (if n == 0 then i else i + 1 + n - 1) ≡ (if suc n == 0 then k else i + suc n - 1) =
      ground arith in
    let seq : x + 1 + n ≡ x + suc n = omega arith in
    ap (newest_from n v (i + 1))
      (newest_of-newer (v i) i x (x + 1) k here (omega arith) (omega arith))
    ∙ newest_rising n v (i + 1) (x + 1) i later (omega arith)
    ∙ ap₂ (λ a b. some (a, b)) seq last

pub newest_started :
    (n : ℕ) (v : ℕ → Option Entry) (i x : ℕ)
    → ((r : ℕ) → r < suc n → Numbered (v (i + r)) (x + 1 + r))
    → x + suc n < 2 ^ 31
    → newest_from (suc n) v i none ≡ some (x + suc n, i + n)
newest_started n v i x all fits =
    let here =
      moved v (i + 0) i (x + 1 + 0) (x + 1) (omega arith) (omega arith) (all 0 (omega arith)) in
    let later = λ (r : ℕ) (lt : r < n).
      moved v (i + suc r) (i + 1 + r) (x + 1 + suc r) (x + 1 + 1 + r) (omega arith) (omega arith)
        (all (suc r) (omega arith)) in
    let last : (if n == 0 then i else i + 1 + n - 1) ≡ i + n = ground arith in
    let seq : x + 1 + n ≡ x + suc n = omega arith in
    ap (newest_from n v (i + 1)) (newest_of-first (v i) i (x + 1) here)
    ∙ newest_rising n v (i + 1) (x + 1) i later (omega arith)
    ∙ ap₂ (λ a b. some (a, b)) seq last

-- Blocks with no record, or with older ones, change nothing.
pub newest_stale :
    (n : ℕ) (v : ℕ → Option Entry) (i x k : ℕ)
    → ((r : ℕ) → r < n → (v (i + r) ≡ none) ⊎ ((seq : ℕ) × ((seq ≤ x) × Numbered (v (i + r)) seq)))
    → x < 2 ^ 31
    → newest_from n v i (some (x, k)) ≡ some (x, k)
newest_stale zero v i x k all fits = refl
newest_stale (suc n) v i x k all fits =
    let at = λ (o : Option Entry). (o ≡ none) ⊎ ((seq : ℕ) × ((seq ≤ x) × Numbered o seq)) in
    let z : i + 0 ≡ i = omega arith in
    let later = λ (r : ℕ) (lt : r < n).
      (let e : i + suc r ≡ i + 1 + r = omega arith in
        subst (λ m. at (v m)) e (all (suc r) (omega arith))) in
    ap (newest_from n v (i + 1))
      (newest_of-older (v i) i x k (subst (λ m. at (v m)) z (all 0 (omega arith))) fits)
    ∙ newest_stale n v (i + 1) x k later fits

pub newest_empty :
    (n : ℕ) (v : ℕ → Option Entry) (i : ℕ)
    → ((r : ℕ) → r < n → v (i + r) ≡ none)
    → newest_from n v i none ≡ none
unfolding newest_of
newest_empty zero v i all = refl
newest_empty (suc n) v i all =
    let z : i ≡ i + 0 = omega arith in
    let later = λ (r : ℕ) (lt : r < n).
      (let e : i + 1 + r ≡ i + suc r = omega arith in ap v e ∙ all (suc r) (omega arith)) in
    ap (newest_from n v (i + 1)) (ap (λ o. newest_of o i none) (ap v z ∙ all 0 (omega arith)))
    ∙ newest_empty n v (i + 1) later
