-- ===== src/Bump/Tests.antt =====
-- Runs of the allocator, and its theorems at a small memory.
use rewind_os.Base.{◌≡◌, refl, some, [], ◌∷◌, arith}
use rewind_os.Bump.{Heap, bump_alloc, bump_init}
use rewind_os.Bump.Blocks.{IsValid, LieBetween, alloc_all, bump_blocks_apart}

abbrev memory : Heap
memory = record { start = 1024; limit = 1064; brk = 1040 }

memory-IsValid : IsValid memory
memory-IsValid = record {
  above = omega arith;
  below = omega arith;
  word = omega arith;
  aligned = refl;
}

-- A request near the end of the address space is served, and the break goes back.
runs_back : bump_alloc 4294967280 memory ≡ (some 1040, record memory { brk = 1024 })
unfolding bump_alloc
runs_back = refl

bump_blocks_apart_example : LieBetween 1024 1064 (alloc_all (9 ∷ 30 ∷ 24 ∷ []) (bump_init memory))
bump_blocks_apart_example =
    bump_blocks_apart (9 ∷ 30 ∷ 24 ∷ []) memory refl (omega arith) (omega arith)
      (omega arith, (omega arith, (omega arith, tt)))
