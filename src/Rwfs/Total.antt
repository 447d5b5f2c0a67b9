-- ===== src/Rwfs/Total.antt =====
-- The calls on files return, whatever the card does.
use rewind_os.Base.{
  ℕ, zero, suc, ◌==◌, inl, inr, take, drop, ◌++◌, ◌+◌, ◌-◌, ◌%◌, ◌^◌, ◌<◌, ◌≡◌, refl, Bool, true,
  false, not, ◌||◌, Option, none, some, List, [], arith, Bool-cases, if◌then◌else◌, ltb,
}
use rewind_os.Media.{Code, ok, err, ReadResult, got, failed, BlockDevice}
use rewind_os.Media.Words.{words}
use rewind_os.Disk.{RwosDisk}
use rewind_os.Rwfs.{IndexEntry, rwfs_name_valid, rwfs_name_hash, marker_ok, fdat_magic, region_end}
use rewind_os.Rwfs.Mount.{Rwfs, on_read, rwfs_init_or_mount}
use rewind_os.Rwfs.Files.{
  chunk, if_written, write_payload, write_tail, write_record, finish_write, write_at, write_placed,
  write_mounted, write_valid, rwfs_write_all_atomic, record_size,
}
use rewind_os.Rwfs.Reads.{
  read_payload, read_tail, read_record, with_state, read_found, read_mounted, rwfs_read_all,
}

-- There is a result.
abbrev pub Ends : {A : Type 0} → Option A → Type 0
Ends {A} r = (x : A) × (r ≡ some x)

Ends-if : {A : Type 0} (b : Bool) (x y : Option A) → Ends x → Ends y → Ends (if b then x else y)
Ends-if true x y h k = h
Ends-if false x y h k = k

Ends-on_read :
    {A C : Type 0} (r : ReadResult × C) (stop : ℕ → C → Option A) (next : List ℕ → C → Option A)
    → ((n : ℕ) (c : C) → Ends (stop n c))
    → ((b : List ℕ) (c : C) → Ends (next b c))
    → Ends (on_read r stop next)
Ends-on_read (got b, c) stop next f g = g b c
Ends-on_read (failed n, c) stop next f g = f n c

module _ (D : BlockDevice) where
  open D use {Card}

  Ends-if_written :
      (r : Code × Card) (next : Card → Option (Code × Card))
      → ((c : Card) → Ends (next c))
      → Ends (if_written r next)
  unfolding if_written
  Ends-if_written (ok, c) next h = h c
  Ends-if_written (err n, c) next h = ((err n, c), refl)

  -- With more fuel than bytes the loop ends, also when a write fails.
  write_payload_total :
      (fuel : ℕ) (src : List ℕ) (rem lba : ℕ) (c : Card)
      → rem < fuel
      → (x : Code × Card) × (write_payload D fuel src rem lba c ≡ some x)
  unfolding write_payload
  write_payload_total zero src rem lba c h = absurd (omega arith)
  write_payload_total (suc fuel) src rem lba c h = elim (Bool-cases (rem == 0)) [
    | inl done ↦ ((ok, c), rw (done, write_payload) refl)
    | inr more ↦
        rw (more, write_payload)
          (Ends-if_written _ _ (λ c'.
            write_payload_total fuel (drop (chunk rem) src) (rem - chunk rem) ((lba + 1) % 2 ^ 32)
              c' (ground arith)))
  ]

  read_payload_total :
      (fuel : ℕ) (dst : List ℕ) (rem lba : ℕ) (c : Card)
      → rem < fuel
      → (x : Code × (List ℕ × Card)) × (read_payload D fuel dst rem lba c ≡ some x)
  unfolding read_payload
  read_payload_total zero dst rem lba c h = absurd (omega arith)
  read_payload_total (suc fuel) dst rem lba c h = elim (Bool-cases (rem == 0)) [
    | inl done ↦ ((ok, (dst, c)), rw (done, read_payload) refl)
    | inr more ↦
        rw (more, read_payload)
          (Ends-on_read (D.read lba c) _ _ (λ n c'. ((err n, (dst, c')), refl))
            (λ b c'.
              read_payload_total fuel (dst ++ take (chunk rem) b) (rem - chunk rem)
                ((lba + 1) % 2 ^ 32) c' (ground arith)))
  ]

  Ends-write_tail :
      (lba : ℕ) (tail : List ℕ) (r : Option (Code × Card)) → Ends r → Ends (write_tail D lba tail r)
  unfolding write_tail
  Ends-write_tail lba tail none h = cc
  Ends-write_tail lba tail (some (ok, c)) h = (D.write lba tail c, refl)
  Ends-write_tail lba tail (some (err n, c)) h = ((err n, c), refl)

  Ends-finish_write :
      (idx blocks : ℕ) (e : IndexEntry) (g : Rwfs) (r : Option (Code × Card))
      → Ends r
      → Ends (finish_write D idx blocks e g r)
  unfolding finish_write
  Ends-finish_write idx blocks e g none h = cc
  Ends-finish_write idx blocks e g (some (ok, c)) h = (_, refl)
  Ends-finish_write idx blocks e g (some (err n, c)) h = (_, refl)

  Ends-write_placed :
      (name src : List ℕ) (len : ℕ) (p : Option (ℕ × ℕ)) (r : Rwfs × Card)
      → Ends (write_placed D name src len p r)
  unfolding write_placed write_at write_record
  Ends-write_placed name src len none r = (_, refl)
  Ends-write_placed name src len (some (i, p)) (g, c) =
      Ends-if (ltb (region_end g.super) ((g.super.next_data_lba + record_size len) % 2 ^ 32)) _ _
        (_, refl)
        (Ends-finish_write i (record_size len) _ g _ (
          Ends-if_written _ _ (λ c'. Ends-write_tail _ _ _ (
            write_payload_total (len + 1) src len ((g.super.next_data_lba + 1) % 2 ^ 32) c'
              (omega arith)))))

  Ends-write_mounted :
      (name src : List ℕ) (len : ℕ) (r : Code × (Rwfs × Card))
      → Ends (write_mounted D name src len r)
  unfolding write_mounted
  Ends-write_mounted name src len (ok, (g, c)) = Ends-write_placed name src len _ (g, c)
  Ends-write_mounted name src len (err n, r) = (_, refl)

  Ends-write_valid :
      (disk : Option RwosDisk) (name : List ℕ) (src : Option (List ℕ)) (len : ℕ) (r : Rwfs × Card)
      → Ends (write_valid D disk name src len r)
  unfolding write_valid
  Ends-write_valid disk name none len (g, c) =
      Ends-if (ltb 0 len) _ _ (_, refl) (Ends-write_mounted name [] len _)
  Ends-write_valid disk name (some src) len (g, c) = Ends-write_mounted name src len _

  Ends-read_tail :
      (e : IndexEntry) (hash : ℕ) (r : Option (Code × (List ℕ × Card)))
      → Ends r
      → Ends (read_tail D e hash r)
  unfolding read_tail
  Ends-read_tail e hash none h = cc
  Ends-read_tail e hash (some (ok, (content, c))) h =
      Ends-on_read (D.read ((e.data_lba + e.record_blocks + 2 ^ 32 - 1) % 2 ^ 32) c) _ _
        (λ n c'. (_, refl)) (λ b c'. (_, refl))
  Ends-read_tail e hash (some (err n, (content, c))) h = (_, refl)

  Ends-read_record : (e : IndexEntry) (hash : ℕ) (c : Card) → Ends (read_record D e hash c)
  unfolding read_record
  Ends-read_record e hash c =
      Ends-on_read (D.read e.data_lba c) _ _ (λ n c'. (_, refl))
        (λ b c'.
          Ends-if (not (marker_ok fdat_magic hash e (words b))) _ _ (_, refl)
            (Ends-read_tail e hash _ (
              read_payload_total (e.data_len + 1) [] e.data_len ((e.data_lba + 1) % 2 ^ 32) c'
                (omega arith))))

  Ends-with_state : (g : Rwfs) (r : Option (ReadResult × Card)) → Ends r → Ends (with_state g r)
  unfolding with_state
  Ends-with_state g none h = cc
  Ends-with_state g (some (r, c)) h = (_, refl)

  Ends-read_found :
      (name : List ℕ) (cap : ℕ) (i : Option ℕ) (r : Rwfs × Card) → Ends (read_found D name cap i r)
  unfolding read_found
  Ends-read_found name cap none r = (_, refl)
  Ends-read_found name cap (some i) (g, c) =
      Ends-if (ltb cap (g.entries i).data_len) _ _ (_, refl)
        (Ends-with_state g _ (Ends-read_record (g.entries i) (rwfs_name_hash name) c))

  Ends-read_mounted :
      (name : List ℕ) (cap : ℕ) (r : Code × (Rwfs × Card)) → Ends (read_mounted D name cap r)
  unfolding read_mounted
  Ends-read_mounted name cap (ok, (g, c)) = Ends-read_found name cap _ (g, c)
  Ends-read_mounted name cap (err n, r) = (_, refl)

  write-Ends :
      (disk : Option RwosDisk) (name src : Option (List ℕ)) (len : ℕ) (r : Rwfs × Card)
      → Ends (rwfs_write_all_atomic D disk name src len r)
  unfolding rwfs_write_all_atomic
  write-Ends disk none src len r = (_, refl)
  write-Ends disk (some name) src len r =
      Ends-if (rwfs_name_valid name) _ _ (Ends-write_valid disk name src len r) (_, refl)

  read-Ends :
      (disk : Option RwosDisk) (name : Option (List ℕ)) (there : Bool) (cap : ℕ) (r : Rwfs × Card)
      → Ends (rwfs_read_all D disk name there cap r)
  unfolding rwfs_read_all
  read-Ends disk none there cap r = (_, refl)
  read-Ends disk (some name) there cap (g, c) =
      Ends-if (not (rwfs_name_valid name) || not there) _ _ (_, refl)
        (Ends-read_mounted name cap (rwfs_init_or_mount D disk g c))

  -- Writing and reading a file return, for every name, content and state of memory and card, also where blocks
  -- cannot be read or written: the loops over the content end, since the fuel is above its length.
  pub file_calls_end :
      (disk : Option RwosDisk) (name src : Option (List ℕ)) (there : Bool) (n : ℕ) (r : Rwfs × Card)
      → ((x : Code × (Rwfs × Card)) × (rwfs_write_all_atomic D disk name src n r ≡ some x))
        × ((y : ReadResult × (Rwfs × Card)) × (rwfs_read_all D disk name there n r ≡ some y))
  file_calls_end disk name src there n r =
      (write-Ends disk name src n r, read-Ends disk name there n r)
