-- ===== src/Parse/Words.antt =====
-- `streq` decides equality, and `tokenize` finds the words of a line.
use rewind_os.Base.{
  ℕ, zero, suc, ◌+◌, ◌-◌, ◌≡◌, ◌≢◌, ◌↔◌, refl, sym, ap, ap₂, ◌∙◌, Bool, true, false, List, [], ◌∷◌,
  ◌++◌, map, append_assoc, inl, inr, if◌then◌else◌, ltb, ◌==◌, Bool-cases, arith, length,
  length-append, take, drop, drop-append_length,
}
use native.Mathlib.Decide.{ℕ_discrete}
use rewind_os.Parse.{streq, is_blank, skip_blanks, in_word, tokenize}

-- `streq` holds of two strings exactly if they are equal.
pub streq_iff : (a b : List ℕ) → (streq a b ≡ true) ↔ (a ≡ b)
unfolding streq
streq_iff [] [] = ((λ e. refl), (λ e. refl))
streq_iff [] (y ∷ ys) = ((λ e. cc), (λ e. cc))
streq_iff (x ∷ xs) [] = ((λ e. cc), (λ e. cc))
streq_iff (x ∷ xs) (y ∷ ys) = elim (ℕ_discrete x y) [
  | yes e ↦
      let t : (x == y) ≡ true = ground arith in
      let (to, from) = streq_iff xs ys in rw t ((λ h. ap₂ (λ a b. a ∷ b) e (to h)), (λ h. from cc))
  | no ne ↦ let t : (x == y) ≡ false = ground arith in rw t ((λ h. cc), (λ h. absurd (ne cc)))
]

-- A string of the source has no terminator inside.
abbrev pub HasNoZero : List ℕ → Type 0
HasNoZero [] = Unit {0}
HasNoZero (c ∷ s) = (c ≢ 0) × HasNoZero s

-- The characters before the first blank.
unfoldable pub first_word : List ℕ → List ℕ
first_word [] = []
first_word (c ∷ s) = let rest = first_word s in if is_blank c then [] else c ∷ rest

-- The words of a line, in order: one for each character that is no blank and stands at the start of
-- the line or behind a blank. The flag says whether such a character has just been passed.
unfoldable pub words : Bool → List ℕ → List (List ℕ)
unfolding first_word
words inside [] = []
words inside (c ∷ s) =
    if is_blank c
    then words false s
    else if inside
    then words true s
    else first_word (c ∷ s) ∷ words true s

-- What C reads as a string in an array of bytes.
unfoldable pub c_string : List ℕ → List ℕ
c_string [] = []
c_string (c ∷ s) = let rest = c_string s in if c == 0 then [] else c ∷ rest

-- The strings at the starts that have been stored.
unfoldable pub strings_at : List ℕ → List ℕ → List (List ℕ)
unfolding c_string
strings_at line argv = map (λ k. c_string (drop k line)) argv

c_string-in_word :
    (s : List ℕ) (i room : ℕ) → HasNoZero s → c_string (in_word s i room).0 ≡ first_word s
unfolding c_string in_word first_word
c_string-in_word [] i room nz = refl
c_string-in_word (c ∷ s) i room nz = elim (Bool-cases (is_blank c)) [
  | inl blank ↦ rw (blank, in_word) refl
  | inr word ↦
      let t : (c == 0) ≡ false = ground (arith, nz.0) in
      rw (word, t, in_word) (ap (λ l. c ∷ l) (c_string-in_word s (i + 1) room nz.1))
]

-- A character in front of a line shifts it by one.
shifted :
    (before : List ℕ) (c : ℕ) (line argv : List ℕ)
    → strings_at ((before ++ (c ∷ [])) ++ line) argv ≡ strings_at (before ++ (c ∷ line)) argv
shifted before c line argv = ap (λ l. strings_at l argv) (append_assoc before (c ∷ []) line)

shifted_length :
    (before : List ℕ) (c i : ℕ) → length before ≡ i → length (before ++ (c ∷ [])) ≡ i + 1
shifted_length before c i e = omega (arith, length-append before (c ∷ []))

-- From either place of the loop on, the starts that are stored are those of the words left.
none_at : (line : List ℕ) (room : ℕ) → strings_at line [] ≡ take room []
unfolding strings_at
none_at line zero = refl
none_at line (suc room) = refl

-- A word that opens is stored if there is room for it.
open_word :
    {i : ℕ} (c : ℕ) (before line argv : List ℕ) (room : ℕ) (ws : List (List ℕ)) (w : List ℕ)
    → c ≢ 0
    → c_string line ≡ w
    → strings_at (before ++ (c ∷ line)) argv ≡ take (room - 1) ws
    → length before ≡ i
    → strings_at (before ++ (c ∷ line)) (if ltb 0 room then i ∷ argv else argv)
      ≡ take room ((c ∷ w) ∷ ws)
unfolding strings_at c_string
open_word c before line argv zero ws w nz e rest at = rest
open_word {i} c before line argv (suc room) ws w nz e rest at =
    let t : ltb 0 (suc room) ≡ true = ground arith in
    let f : (c == 0) ≡ false = ground (arith, nz) in
    let r : suc room - 1 ≡ room = omega arith in
    let here : drop i (before ++ (c ∷ line)) ≡ c ∷ line =
      rw (sym at) (drop-append_length before (c ∷ line)) in
    rw t (ap₂ (λ a b. a ∷ b) (rw (here, f) (ap (λ l. c ∷ l) e)) (rest ∙ ap (λ k. take k ws) r))

mutual
  unfolding skip_blanks in_word words

  skip_blanks_lem :
      (s before : List ℕ) (i room : ℕ)
      → HasNoZero s
      → length before ≡ i
      → let (line, argv) = skip_blanks s i room in
        strings_at (before ++ line) argv ≡ take room (words false s)
  skip_blanks_lem [] before i room nz at = none_at (before ++ []) room
  skip_blanks_lem (c ∷ s) before i room nz at = elim (Bool-cases (is_blank c)) [
    | inl blank ↦
        let (line, argv) = skip_blanks s (i + 1) room in
        rw (blank, skip_blanks)
          (sym (shifted before c line argv)
            ∙ skip_blanks_lem s (before ++ (c ∷ [])) (i + 1) room nz.1
                (shifted_length before c i at))
    | inr word ↦
        let (line, argv) = in_word s (i + 1) (room - 1) in
        let rest =
          sym (shifted before c line argv)
          ∙ in_word_lem s (before ++ (c ∷ [])) (i + 1) (room - 1) nz.1
              (shifted_length before c i at) in
        rw (word, skip_blanks)
          (open_word c before line argv room (words true s) (first_word s) nz.0
            (c_string-in_word s (i + 1) (room - 1) nz.1) rest at)
  ]

  in_word_lem :
      (s before : List ℕ) (i room : ℕ)
      → HasNoZero s
      → length before ≡ i
      → let (line, argv) = in_word s i room in
        strings_at (before ++ line) argv ≡ take room (words true s)
  in_word_lem [] before i room nz at = none_at (before ++ []) room
  in_word_lem (c ∷ s) before i room nz at = elim (Bool-cases (is_blank c)) [
    | inl blank ↦
        let (line, argv) = skip_blanks s (i + 1) room in
        rw (blank, in_word)
          (sym (shifted before 0 line argv)
            ∙ skip_blanks_lem s (before ++ (0 ∷ [])) (i + 1) room nz.1
                (shifted_length before 0 i at))
    | inr word ↦
        let (line, argv) = in_word s (i + 1) room in
        rw (word, in_word)
          (sym (shifted before c line argv)
            ∙ in_word_lem s (before ++ (c ∷ [])) (i + 1) room nz.1 (shifted_length before c i at))
  ]

-- For a string `s` without a terminator inside, and room for `argv_max` words, `tokenize` stores the
-- starts of the first `argv_max` words of `s`: the strings that are read there, in the line that it
-- has written to, are those words, in order.
pub tokenize_lem :
    (s : List ℕ) (argv_max : ℕ)
    → HasNoZero s
    → let (line, argv) = tokenize s argv_max in strings_at line argv ≡ take argv_max (words false s)
unfolding tokenize
tokenize_lem s argv_max nz = skip_blanks_lem s [] 0 argv_max nz refl
