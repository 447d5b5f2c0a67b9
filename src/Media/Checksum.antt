-- ===== src/Media/Checksum.antt =====
-- The checksums of the formats on the card: FNV-1a over words or bytes, with a mask at the end.
-- `rwos_disk_checksum`, `jrnl_checksum_words`, `jrnl_checksum_bytes`, `rwfs_checksum_words` and
-- `rwfs_checksum_bytes` are the same loop.
use Prim.Native.Nat.{bit_xor}
use rewind_os.Base.{ℕ, ◌*◌, ◌%◌, ◌^◌, ◌<◌, List, [], ◌∷◌, arith}
use rewind_os.Base.Bits.{bit_xor_lt}

unfoldable pub fnv_loop : ℕ → List ℕ → ℕ
fnv_loop h [] = h
fnv_loop h (w ∷ ws) = fnv_loop (bit_xor h w * 16777619 % 2 ^ 32) ws

unfoldable pub checksum : List ℕ → ℕ
unfolding fnv_loop
checksum ws = bit_xor (fnv_loop 2166136261 ws) 0xa5a55a5a

fnv_loop_lt : (ws : List ℕ) (h : ℕ) → h < 2 ^ 32 → fnv_loop h ws < 2 ^ 32
unfolding fnv_loop
fnv_loop_lt [] h lt = lt
fnv_loop_lt (w ∷ ws) h lt = fnv_loop_lt ws _ (omega arith)

-- A checksum is a word.
pub checksum_lt : (ws : List ℕ) → checksum ws < 2 ^ 32
unfolding checksum
checksum_lt ws =
    bit_xor_lt 32 (fnv_loop 2166136261 ws) 0xa5a55a5a (fnv_loop_lt ws 2166136261 (omega arith))
      (omega arith)
