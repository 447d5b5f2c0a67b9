-- ===== src/Parse/Tests.antt =====
-- Runs of the parsers, and their theorems at concrete inputs.
use rewind_os.Base.{◌≡◌, refl, some, [], ◌∷◌, arith}
use rewind_os.Log.{decimal, hex32_from}
use rewind_os.Parse.{is_blank, tokenize, parse_u32}
use rewind_os.Base.{ℕ, List, false, take}
use rewind_os.Parse.Words.{words, strings_at, tokenize_lem}
use rewind_os.Parse.Numbers.{parse_u32-hex32, parse_u32-decimal}

-- Nothing tests for an overflow: 4294967301 is read as 5.
wraps :
    parse_u32 (some (b'4' ∷ b'2' ∷ b'9' ∷ b'4' ∷ b'9' ∷ b'6' ∷ b'7' ∷ b'3' ∷ b'0' ∷ b'1' ∷ []))
    ≡ some 5
unfolding parse_u32
wraps = refl

-- "a  bc" with room for one word
splits :
    tokenize (b'a' ∷ b' ' ∷ b' ' ∷ b'b' ∷ b'c' ∷ []) 1
    ≡ (b'a' ∷ 0 ∷ b' ' ∷ b'b' ∷ b'c' ∷ [], 0 ∷ [])
unfolding tokenize is_blank
splits = refl

parse_u32-hex32_example : parse_u32 (some (b'0' ∷ b'x' ∷ hex32_from 8 0 48879)) ≡ some 48879
parse_u32-hex32_example = parse_u32-hex32 48879 (omega arith)

parse_u32-decimal_example : parse_u32 (some (decimal 4294967295)) ≡ some 4294967295
parse_u32-decimal_example = parse_u32-decimal 4294967295 (omega arith)

abbrev two_words : List ℕ
two_words = b'a' ∷ b' ' ∷ b' ' ∷ b'b' ∷ b'c' ∷ []

tokenize_lem_example :
    let (line, argv) = tokenize two_words 1 in strings_at line argv ≡ take 1 (words false two_words)
tokenize_lem_example =
    tokenize_lem two_words 1
      (ground arith, (ground arith, (ground arith, (ground arith, (ground arith, tt)))))
