-- ===== src/Media/Memory.antt =====
-- A card in memory, whose next writes end as given: it keeps the laws.
use rewind_os.Base.{false, ℕ, ◌≡◌, ◌⊎◌, inl, inr, refl, true, List, [], ◌∷◌, update}
use rewind_os.Base.{false, update_self, update_ne}
use rewind_os.Media.{BlockDevice, IsLawful, Code, ok, err, got}

-- The codes of the writes to come (success when none is left), the size and the blocks.
pub record MemoryCard : Type 0 where
  pub codes : List Code
  pub size : ℕ
  pub blocks : ℕ → List ℕ

abbrev pub next_code : List Code → Code
next_code [] = ok
next_code (c ∷ cs) = c

abbrev later_codes : List Code → List Code
later_codes [] = []
later_codes (c ∷ cs) = cs

-- A write that fails leaves an empty block.
abbrev pub stored : Code → List ℕ → List ℕ
stored ok b = b
stored (err n) b = []

abbrev pub memory_card : BlockDevice
memory_card = record {
  Card = MemoryCard;
  detect = λ s. (true, s);
  set_clock = λ s. s;
  info = λ s. record { initialized = true; capacity_blocks = s.size };
  init = λ s. (ok, s);
  busy = λ s. false;
  read = λ lba s. (got (s.blocks lba), s);
  write = λ lba b s. (
    next_code s.codes,
    record s {
      codes = later_codes s.codes;
      blocks = update s.blocks lba (stored (next_code s.codes) b);
    },
  );
  content = λ s. s.blocks;
}

got_same : (a b : List ℕ) → got a ≡ got b → b ≡ a
got_same a b e = cc

stored_ok : (c : Code) (b : List ℕ) → c ≡ ok → stored c b ≡ b
stored_ok ok b e = refl
stored_ok (err n) b e = cc

pub stored-cases : (c : Code) (b : List ℕ) → (stored c b ≡ []) ⊎ (stored c b ≡ b)
stored-cases ok b = inr refl
stored-cases (err n) b = inl refl

pub memory_card-IsLawful : IsLawful memory_card
memory_card-IsLawful = record {
  content-detect = λ s j. refl;
  content-set_clock = λ s j. refl;
  content-init = λ s j. refl;
  content-read = λ s lba j. refl;
  read_got = λ s lba b e. got_same (s.blocks lba) b e;
  content-write = λ s lba b e.
      rw (update_self s.blocks lba (stored (next_code s.codes) b))
        (stored_ok (next_code s.codes) b e);
  content-write_ne = λ s lba b j ne. update_ne s.blocks lba j (stored (next_code s.codes) b) ne;
}
