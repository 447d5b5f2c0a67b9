-- ===== src/Shell/History.antt =====
-- The history as a list of strings, the latest first.
use native.Mathlib.Decide.{dec_lt, ℕ_discrete}
use rewind_os.Base.{ℕ, zero, suc, ◌+◌, ◌%◌, ◌≤◌, ◌<◌, ◌≡◌, ◌≢◌, refl, sym, ap, ◌∙◌, true, false}
use rewind_os.Base.{List, update, update_self, update_ne, ◌==◌, arith, length}
use rewind_os.Shell.{
  Shell, copy, text, str_len, matched, is_entry, push_entry, shell_hist_recent_index,
}
use rewind_os.Shell.Arrays.{
  IsString, str_len-string, text_ext, text_at, length-text, recent_index_lem,
}

-- The array that is `k` steps back.
abbrev pub row : Shell → ℕ → ℕ → ℕ
row s k = s.history (shell_hist_recent_index s.hist_head k)

abbrev pub past_of : (ℕ → ℕ) → List ℕ
past_of entry = text (str_len entry) entry

-- The line that is `k` steps back.
abbrev pub past : Shell → ℕ → List ℕ
past s k = past_of (row s k)

pub row-push_zero :
    (src : ℕ → ℕ) (n : ℕ) (s : Shell)
    → s.hist_head < 8
    → row (push_entry src n s) 0 ≡ update (copy n src (s.history s.hist_head)) n 0
unfolding push_entry
row-push_zero src n s lt =
    let back : shell_hist_recent_index ((s.hist_head + 1) % 8) 0 ≡ s.hist_head =
      omega (arith, recent_index_lem ((s.hist_head + 1) % 8) 0 (omega arith) (omega arith)) in
    rw back (update_self s.history s.hist_head (update (copy n src (s.history s.hist_head)) n 0))

pub row-push_suc :
    (src : ℕ → ℕ) (n : ℕ) (s : Shell) (k : ℕ)
    → s.hist_head < 8
    → k < 7
    → row (push_entry src n s) (suc k) ≡ row s k
unfolding push_entry
row-push_suc src n s k lt kt =
    let here = recent_index_lem s.hist_head k lt (omega arith) in
    let back : shell_hist_recent_index ((s.hist_head + 1) % 8) (suc k)
        ≡ shell_hist_recent_index s.hist_head k =
      omega (
        arith,
        here,
        recent_index_lem ((s.hist_head + 1) % 8) (suc k) (omega arith) (omega arith),
      ) in
    rw back (
      update_ne s.history s.hist_head _ (update (copy n src (s.history s.hist_head)) n 0)
        (omega (arith, here)))

matched_step :
    (rounds : ℕ) (a b : ℕ → ℕ) (i : ℕ)
    → a i ≡ b i
    → matched (suc rounds) a b i ≡ matched rounds a b (suc i)
unfolding matched
matched_step rounds a b i e = let t : (a i == b i) ≡ true = ground arith in rw (t, matched) refl

matched_stop : (rounds : ℕ) (a b : ℕ → ℕ) (i : ℕ) → a i ≢ b i → matched (suc rounds) a b i ≡ i
unfolding matched
matched_stop rounds a b i ne = let t : (a i == b i) ≡ false = ground arith in rw (t, matched) refl

-- A comparison that runs to the end of the line has seen the same bytes.
matched_same :
    (rounds : ℕ) (a b : ℕ → ℕ) (i : ℕ)
    → matched rounds a b i ≡ i + rounds
    → (j : ℕ) → i ≤ j
    → j < i + rounds
    → a j ≡ b j
unfolding matched
matched_same zero a b i e j le lt = absurd (omega arith)
matched_same (suc rounds) a b i e j le lt = elim (ℕ_discrete (a i) (b i)) [
  | yes same ↦ elim (ℕ_discrete i j) [
    | yes here ↦ ap a (sym here) ∙ same ∙ ap b here
    | no ne ↦
        matched_same rounds a b (suc i) (sym (matched_step rounds a b i same) ∙ e ∙ omega arith) j
          (omega arith) (omega arith)
  ]
  | no ne ↦ absurd (omega (arith, e, matched_stop rounds a b i ne))
]

matched_all :
    (rounds : ℕ) (a b : ℕ → ℕ) (i : ℕ)
    → ((j : ℕ) → i ≤ j → j < i + rounds → a j ≡ b j)
    → matched rounds a b i ≡ i + rounds
unfolding matched
matched_all zero a b i same = omega arith
matched_all (suc rounds) a b i same =
    matched_step rounds a b i (same i (omega arith) (omega arith))
    ∙ (matched_all rounds a b (suc i) (λ j le lt. same j (omega arith) (omega arith)) ∙ omega arith)

matched_le : (rounds : ℕ) (a b : ℕ → ℕ) (i : ℕ) → matched rounds a b i ≤ i + rounds
unfolding matched
matched_le zero a b i = omega arith
matched_le (suc rounds) a b i = ground (arith, matched_le rounds a b (suc i))

string_length :
    (entry : ℕ → ℕ) (n m : ℕ)
    → IsString entry m
    → ((j : ℕ) → j < n → entry j ≢ 0)
    → entry n ≡ 0
    → n ≡ m
string_length entry n m st nonzero stop = elim (ℕ_discrete n m) [
  | yes e ↦ e
  | no ne ↦ elim (dec_lt n m) [
    | yes lt ↦ absurd (st.chars n lt stop)
    | no nlt ↦ absurd (nonzero m (omega arith) st.end)
  ]
]

module _ (n m : ℕ) (entry src : ℕ → ℕ) (st : IsString entry m)
    (typed : (j : ℕ) → j < n → src j ≢ 0) where
  -- The test for a line that repeats the entry: they are the same text.
  pub is_entry-true : is_entry n entry src ≡ true → past_of entry ≡ text n src
  unfolding is_entry
  is_entry-true e =
      let i = matched n entry src 0 in
      let all : i ≡ n = ground arith in
      let whole : i ≡ 0 + n = omega arith in
      let stops : entry i ≡ 0 = ground arith in
      let same =
        λ (j : ℕ) (lt : j < n). matched_same n entry src 0 whole j (omega arith) (omega arith) in
      let here : n ≡ m =
        string_length entry n m st (λ j lt z. typed j lt (sym (same j lt) ∙ z))
          (ap entry (sym all) ∙ stops) in
      rw (str_len-string entry m st, sym here) (text_ext n entry src same)

  pub is_entry-false : is_entry n entry src ≡ false → past_of entry ≢ text n src
  unfolding is_entry
  is_entry-false e same =
      let lens : m ≡ n =
        sym (length-text m entry)
        ∙ ap (λ k. length (text k entry)) (sym (str_len-string entry m st))
        ∙ ap length same
        ∙ length-text n src in
      let texts : text n entry ≡ text n src =
        ap (λ k. text k entry) (sym (str_len-string entry m st ∙ lens)) ∙ same in
      let all : matched n entry src 0 ≡ n =
        matched_all n entry src 0 (λ j le lt. text_at n entry src texts j (omega arith))
        ∙ omega arith in
      let stops : entry n ≡ 0 = ap entry (sym lens) ∙ st.end in
      absurd (ground (arith, ap entry all))
