-- ===== src/Parse.antt =====
-- src/common_io/parse.c: comparing strings, splitting a command line, and reading numbers.
-- A string is the list of its characters before the terminator, each a number below 256.
pub mod Numbers
pub mod Words
mod Tests
use Prim.Native.Nat.{bit_or}
use rewind_os.Base.{
  ℕ, zero, suc, ◌+◌, ◌-◌, ◌*◌, ◌%◌, ◌^◌, Bool, true, false, Option, none, some, List, [], ◌∷◌, ◌++◌,
  if◌then◌else◌, ltb, leb, ◌==◌, ◌&&◌, ◌||◌, not,
}

-- `streq`: both strings are walked while neither has ended.
unfoldable pub streq : List ℕ → List ℕ → Bool
streq (x ∷ xs) (y ∷ ys) = let rest = streq xs ys in if x == y then rest else false
streq [] [] = true
streq [] (y ∷ ys) = false
streq (x ∷ xs) [] = false

unfoldable pub is_space : ℕ → Bool
is_space c = c == b' ' || (c == 9 || (c == 13 || c == 10))

-- `none` is -1.
unfoldable pub hexval : ℕ → Option ℕ
hexval c =
    if leb b'0' c && leb c b'9'
    then some (c - b'0')
    else if leb b'a' c && leb c b'f'
    then some (10 + (c - b'a'))
    else if leb b'A' c && leb c b'F'
    then some (10 + (c - b'A'))
    else none

-- The two loops of `parse_u32`: `v` and `any` at the end, or `none` for `return 0`.
unfoldable pub hex_loop : List ℕ → ℕ → Bool → Option (ℕ × Bool)
unfolding hexval is_space
hex_loop [] v any = some (v, any)
hex_loop (c ∷ s) v any =
    let stop = some (v, any) in
    elim (is_space c) [
      | true ↦ stop
      | false ↦ elim (hexval c) [
        | none ↦ none
        | some h ↦ hex_loop s (bit_or (v * 2 ^ 4 % 2 ^ 32) h) true
      ]
    ]

unfoldable pub dec_loop : List ℕ → ℕ → Bool → Option (ℕ × Bool)
unfolding is_space
dec_loop [] v any = some (v, any)
dec_loop (c ∷ s) v any =
    let stop = some (v, any) in
    elim (is_space c) [
      | true ↦ stop
      | false ↦ elim (ltb c b'0' || ltb b'9' c) [
        | true ↦ none
        | false ↦ dec_loop s ((v * 10 % 2 ^ 32 + (c - b'0')) % 2 ^ 32) true
      ]
    ]

-- `if (!any) return 0; *out = v; return 1;`
unfoldable pub finish : Option (ℕ × Bool) → Option ℕ
finish none = none
finish (some (v, true)) = some v
finish (some (v, false)) = none

-- The base test: "0x" or "0X" in front, and what is behind it.
unfoldable pub parse_digits : List ℕ → Option ℕ
unfolding finish hex_loop dec_loop
parse_digits [] = none
parse_digits (c ∷ []) = finish (dec_loop (c ∷ []) 0 false)
parse_digits (c ∷ x ∷ s) =
    if c == b'0' && (x == b'x' || x == b'X')
    then finish (hex_loop s 0 false)
    else finish (dec_loop (c ∷ x ∷ s) 0 false)

-- The result is what goes to `*out`, `none` being the return value 0.
unfoldable pub parse_u32 : Option (List ℕ) → Option ℕ
unfolding parse_digits
parse_u32 none = none
parse_u32 (some s) = parse_digits s

-- `tokenize` works in place: it writes a terminator over the blank that ends each word, and stores
-- the start of each of the first `argv_max` words in `argv`. The result is the line after that, as
-- the array of its bytes, and the stored starts, as indices. The loop is told by what it does at
-- the character at index `i`: outside a word it skips blanks and opens one at any other character,
-- inside a word it goes on to the next blank, which it overwrites.
unfoldable pub is_blank : ℕ → Bool
is_blank c = c == b' ' || c == 9

mutual
  -- `while (*p == ' ' || *p == '\t') p++; if (*p == '\0') break; if (argc < argv_max) argv[argc++] = p;`
  pub skip_blanks : List ℕ → ℕ → ℕ → List ℕ × List ℕ
  skip_blanks [] i room = ([], [])
  skip_blanks (c ∷ s) i room = elim (is_blank c) [
    | true ↦ let (line, argv) = skip_blanks s (i + 1) room in (c ∷ line, argv)
    | false ↦
        let (line, argv) = in_word s (i + 1) (room - 1) in
        (c ∷ line, if ltb 0 room then i ∷ argv else argv)
  ]

  -- `while (*p && *p != ' ' && *p != '\t') p++; if (*p) { *p = '\0'; p++; }`
  pub in_word : List ℕ → ℕ → ℕ → List ℕ × List ℕ
  in_word [] i room = ([], [])
  in_word (c ∷ s) i room = elim (is_blank c) [
    | true ↦ let (line, argv) = skip_blanks s (i + 1) room in (0 ∷ line, argv)
    | false ↦ let (line, argv) = in_word s (i + 1) room in (c ∷ line, argv)
  ]

unfoldable pub tokenize : List ℕ → ℕ → List ℕ × List ℕ
unfolding skip_blanks in_word
tokenize line argv_max = skip_blanks line 0 argv_max
