-- ===== src/Log.antt =====
-- src/common_io/log.c: the 512-byte ring that holds the output of background commands.
-- Bytes are numbers below 256. A `const char *` is the list of the characters before its
-- terminator, `none` being the null pointer; lengths are below 2 ^ 16, as the uint16 counters of the
-- code ask. The static variables are the fields of `Log`.
pub mod Keep
mod Tests
use rewind_os.Base.{
  ℕ, zero, suc, ◌+◌, ◌-◌, ◌*◌, ◌/◌, ◌%◌, ◌^◌, Bool, true, false, Option, none, some, List, [], ◌∷◌,
  ◌++◌, if◌then◌else◌, ltb, leb, ◌==◌, get_or, set, length, take, ◌||◌,
}
use Prim.Native.Nat.{bit_and}

abbrev pub log_buf_size : ℕ
log_buf_size = 512

-- `g_log_buf`, `g_log_head`, `g_log_tail`, `g_log_count`
pub record Log : Type 0 where
  pub buf : List ℕ
  pub head : ℕ  -- uint16, the next write
  pub tail : ℕ  -- uint16, the next read
  pub count : ℕ  -- uint16

-- The results 0 and -1.
pub data LogStatus : Type 0 where
  ok err : LogStatus

-- The oldest byte gives way in a full ring.
unfoldable pub log_putc : ℕ → Log → Log
log_putc c g =
    let g' =
      if g.count == log_buf_size
      then record g { tail = (g.tail + 1) % log_buf_size % 2 ^ 16; count = g.count - 1 }
      else g in
    record g' {
      buf = set g'.buf g'.head c;
      head = (g'.head + 1) % log_buf_size % 2 ^ 16;
      count = (g'.count + 1) % 2 ^ 16;
    }

-- The loop of `log_write` over the bytes that it writes.
unfoldable pub put_all : List ℕ → Log → Log
put_all [] g = g
put_all (c ∷ cs) g = put_all cs (log_putc c g)

unfoldable pub log_write : Option (List ℕ) → ℕ → Log → LogStatus × Log
unfolding put_all
log_write none len g = (err, g)
log_write (some s) len g = if len == 0 then (err, g) else (ok, put_all (take len s) g)

unfoldable pub log_puts : Option (List ℕ) → Log → LogStatus × Log
unfolding log_write
log_puts none g = (err, g)
log_puts (some s) g = log_write (some s) (length s % 2 ^ 16) g

-- `hx[v]`
unfoldable pub hex_digit : ℕ → ℕ
hex_digit v = if ltb v 10 then b'0' + v else b'A' + (v - 10)

unfoldable pub log_put_hex8 : ℕ → Log → LogStatus × Log
unfolding hex_digit log_write
log_put_hex8 v g =
    log_write (some (hex_digit (bit_and (v / 2 ^ 4) 15) ∷ hex_digit (bit_and v 15) ∷ [])) 2 g

-- The eight characters that `log_put_hex32` writes, from round `i` on with `n` rounds left.
unfoldable pub hex32_from : ℕ → ℕ → ℕ → List ℕ
unfolding hex_digit
hex32_from zero i v = []
hex32_from (suc n) i v = hex_digit (bit_and (v / 2 ^ ((7 - i) * 4)) 15) ∷ hex32_from n (i + 1) v

unfoldable pub log_put_hex32 : ℕ → Log → LogStatus × Log
unfolding hex32_from log_write
log_put_hex32 v g = log_write (some (hex32_from 8 0 v)) 8 g

unfoldable pub log_available : Log → ℕ
log_available g = g.count

-- The loop of `log_read` with `n` rounds left: the bytes that go to `buf`, and the ring.
unfoldable pub read_loop : ℕ → Log → List ℕ × Log
read_loop zero g = ([], g)
read_loop (suc n) g =
    let (out, g') = read_loop n (record g { tail = (g.tail + 1) % log_buf_size % 2 ^ 16 }) in
    (get_or g.buf g.tail 0 ∷ out, g')

-- `buf` is not null here: the result is the bytes that it receives, whose number is returned.
unfoldable pub log_read : ℕ → Log → List ℕ × Log
unfolding read_loop
log_read max g =
    if max == 0
    then ([], g)
    else let n = if ltb g.count max then g.count else max in
      let (out, g') = read_loop n g in (out, record g' { count = (g.count + 2 ^ 16 - n) % 2 ^ 16 })

unfoldable pub log_clear : Log → Log
log_clear g = record g { head = 0; tail = 0; count = 0 }

-- `log_basename`: what follows the last '/', `last` being the candidate so far.
unfoldable pub basename_from : List ℕ → List ℕ → List ℕ
basename_from last [] = last
basename_from last (c ∷ cs) = basename_from (if c == b'/' then cs else last) cs

unfoldable pub log_basename : List ℕ → List ℕ
unfolding basename_from
log_basename path = basename_from path path

-- The loop of `log_put_u32` with room for `n` characters, the last digit first.
unfoldable pub low_digits : ℕ → ℕ → List ℕ
low_digits zero v = []
low_digits (suc n) v =
    let rest = low_digits n (v / 10) in if ltb 0 v then (b'0' + v % 10) ∷ rest else []

-- The swaps at the end of `log_put_u32` turn the buffer round; `after` is what follows.
unfoldable pub turn_onto : List ℕ → List ℕ → List ℕ
turn_onto [] after = after
turn_onto (c ∷ cs) after = turn_onto cs (c ∷ after)

-- The characters that `log_put_u32` writes.
unfoldable pub decimal : ℕ → List ℕ
unfolding low_digits turn_onto
decimal v = if v == 0 then b'0' ∷ [] else turn_onto (low_digits 10 v) []

unfoldable pub log_put_u32 : ℕ → Log → LogStatus × Log
unfolding decimal log_write
log_put_u32 v g = log_write (some (decimal v)) (length (decimal v)) g

-- An int32 is its two's complement word, so it is negative from `2 ^ 31` on, and `-(v + 1)` is the
-- complement of the word.
unfoldable pub log_put_s32 : ℕ → Log → LogStatus × Log
unfolding log_put_u32 log_putc
log_put_s32 v g =
    if leb (2 ^ 31) v
    then log_put_u32 ((2 ^ 32 - 1 - v + 1) % 2 ^ 32) (log_putc b'-' g)
    else log_put_u32 v g

unfoldable pub log_err : Option (List ℕ) → ℕ → List ℕ → ℕ → Log → Log
unfolding log_puts log_put_s32 log_put_u32 log_putc log_basename
log_err tag rc file line g =
    let g1 = (log_puts tag g).1 in
    let g2 = (log_puts (some (b':' ∷ b' ' ∷ b'e' ∷ b'r' ∷ b'r' ∷ b'=' ∷ [])) g1).1 in
    let g3 = (log_put_s32 rc g2).1 in
    let g4 = (log_puts (some (b' ' ∷ b'@' ∷ [])) g3).1 in
    let g5 = (log_puts (some (log_basename file)) g4).1 in
    let g6 = (log_put_u32 line (log_putc b':' g5)).1 in (log_puts (some (13 ∷ 10 ∷ [])) g6).1
