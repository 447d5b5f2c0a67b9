-- ===== src/Shell/Arrays.antt =====
-- Strings in char arrays: what the editor's loops over arrays compute.
use rewind_os.Base.{
  ℕ, zero, suc, ◌+◌, ◌-◌, ◌%◌, ◌≤◌, ◌<◌, ◌≡◌, ◌≢◌, refl, sym, ap, ap₂, ◌∙◌, true, false,
}
use native.Mathlib.Decide.{ℕ_discrete}
use rewind_os.Base.{
  List, [], ◌∷◌, ◌++◌, update, update_self, update_ne, ltb, ◌==◌, arith, length, length-append,
}
use rewind_os.Shell.{copy, text, scan, str_len, wrap, shell_hist_recent_index}

pub copy-lt : (n : ℕ) (src dst : ℕ → ℕ) (j : ℕ) → j < n → copy n src dst j ≡ src j
unfolding copy
copy-lt zero src dst j lt = absurd (omega arith)
copy-lt (suc n) src dst j lt = ground (arith, copy-lt n src dst j)

-- The array holds a string of length `n`.
pub record IsString (f : ℕ → ℕ) (n : ℕ) : Type 0 where
  pub chars : (i : ℕ) → i < n → f i ≢ 0
  pub end : f n ≡ 0
  pub fits : n ≤ 127

scan_from :
    (rounds : ℕ) (f : ℕ → ℕ) (i n : ℕ)
    → ((j : ℕ) → j < n → f j ≢ 0)
    → f n ≡ 0
    → i ≤ n
    → n ≤ i + rounds
    → scan rounds f i ≡ n
unfolding scan
scan_from zero f i n nonzero stop le lim = omega arith
scan_from (suc rounds) f i n nonzero stop le lim = elim (ℕ_discrete i n) [
  | yes e ↦ (let t : (f i == 0) ≡ true = rw e (ground arith) in rw (t, scan) e)
  | no ne ↦
      (let lt : i < n = omega arith in
        let f_ne = nonzero i lt in
        let t : (f i == 0) ≡ false = ground arith in
        rw (t, scan) (scan_from rounds f (suc i) n nonzero stop lt (omega arith)))
]

pub str_len-string : (f : ℕ → ℕ) (n : ℕ) → IsString f n → str_len f ≡ n
str_len-string f n s = scan_from 127 f 0 n s.chars s.end (omega arith) s.fits

-- What is copied from a text, with its end, is a string.
pub copied-IsString :
    (n : ℕ) (src dst : ℕ → ℕ)
    → ((i : ℕ) → i < n → src i ≢ 0)
    → n ≤ 127
    → IsString (update (copy n src dst) n 0) n
copied-IsString n src dst nonzero fits = record {
  chars = λ i lt e.
      nonzero i lt
        (sym (copy-lt n src dst i lt) ∙ sym (update_ne (copy n src dst) n i 0 (omega arith)) ∙ e);
  end = update_self (copy n src dst) n 0;
  fits = fits;
}

pub text_ext : (n : ℕ) (f g : ℕ → ℕ) → ((i : ℕ) → i < n → f i ≡ g i) → text n f ≡ text n g
unfolding text
text_ext zero f g same = refl
text_ext (suc n) f g same =
    ap₂ (λ l a. l ++ (a ∷ [])) (text_ext n f g (λ i lt. same i (omega arith)))
      (same n (omega arith))

pub text-copied : (n : ℕ) (src dst : ℕ → ℕ) → text n (update (copy n src dst) n 0) ≡ text n src
text-copied n src dst =
    text_ext n _ _ (λ i lt. update_ne (copy n src dst) n i 0 (omega arith) ∙ copy-lt n src dst i lt)

pub text-update : (n : ℕ) (f : ℕ → ℕ) (i v : ℕ) → n ≤ i → text n (update f i v) ≡ text n f
text-update n f i v le = text_ext n _ _ (λ j lt. update_ne f i j v (omega arith))

pub length-text : (n : ℕ) (f : ℕ → ℕ) → length (text n f) ≡ n
unfolding text
length-text zero f = refl
length-text (suc n) f = omega (arith, length-append (text n f) (f n ∷ []), length-text n f)

wrap_done : (n a b : ℕ) → b ≤ a → wrap n a b ≡ a - b
unfolding wrap
wrap_done zero a b le = refl
wrap_done (suc n) a b le = let t : ltb a b ≡ false = ground arith in rw (t, wrap) refl

append_last :
    (xs ys : List ℕ) (a b : ℕ)
    → length xs ≡ length ys
    → xs ++ (a ∷ []) ≡ ys ++ (b ∷ [])
    → (xs ≡ ys) × (a ≡ b)
append_last [] [] a b l e = (refl, cc)
append_last [] (y ∷ ys) a b l e = absurd (omega arith)
append_last (x ∷ xs) [] a b l e = absurd (omega arith)
append_last (x ∷ xs) (y ∷ ys) a b l e =
    let rest = append_last xs ys a b (omega arith) (cc) in let tails = rest.0 in (cc, rest.1)

-- The bytes of a text are told by the list.
pub text_at : (n : ℕ) (f g : ℕ → ℕ) → text n f ≡ text n g → (j : ℕ) → j < n → f j ≡ g j
unfolding text
text_at zero f g e j lt = absurd (omega arith)
text_at (suc n) f g e j lt =
    let parts =
      append_last (text n f) (text n g) (f n) (g n) (length-text n f ∙ sym (length-text n g)) e in
    elim (ℕ_discrete j n) [
      | yes here ↦ ap f here ∙ parts.1 ∙ ap g (sym here)
      | no ne ↦ text_at n f g parts.0 j (omega arith)
    ]

-- The index of the entry `nav` steps back.
pub recent_index_lem :
    (head nav : ℕ) → head < 8 → nav < 8 → shell_hist_recent_index head nav ≡ (head + 7 - nav) % 8
unfolding shell_hist_recent_index wrap
recent_index_lem head nav lt nt =
    ground (arith, wrap_done nav (head + 8) (1 + nav), wrap_done nav head (1 + nav))
