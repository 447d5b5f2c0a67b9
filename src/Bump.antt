-- ===== src/Bump.antt =====
-- src/allocators/bump.c: the allocator that hands out memory behind the image and never takes it back.
-- Addresses and sizes are 32-bit words. The linker's symbols `_end` and `_sram_end` are the fields
-- `start` and `limit`; `brk` is the static variable.
pub mod Blocks
mod Tests
use Prim.Native.Nat.{bit_and}
use rewind_os.Base.{ℕ, ◌+◌, ◌-◌, ◌%◌, ◌^◌, Option, none, some, if◌then◌else◌, ltb}

pub record Heap : Type 0 where
  pub start : ℕ
  pub limit : ℕ
  pub brk : ℕ

-- `(n + (a - 1)) & ~(a - 1)`
unfoldable pub align_up : ℕ → ℕ → ℕ
align_up n a = bit_and ((n + (a - 1)) % 2 ^ 32) (2 ^ 32 - 1 - (a - 1))

unfoldable pub bump_init : Heap → Heap
bump_init h = record h { brk = h.start }

-- `none` is the null pointer.
unfoldable pub bump_alloc : ℕ → Heap → Option ℕ × Heap
unfolding align_up
bump_alloc n h =
    let top = (h.brk + align_up n 8) % 2 ^ 32 in
    if ltb h.limit top then (none, h) else (some h.brk, record h { brk = top })
