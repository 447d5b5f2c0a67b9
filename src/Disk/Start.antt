-- ===== src/Disk/Start.antt =====
-- `rwos_disk_init` of src/common_io/rwos_disk.c: what a start of the system finds on the card.
use rewind_os.Base.{
  ℕ, ◌≤◌, ◌≡◌, true, false, ◌⊎◌, inl, inr, refl, sym, ◌∙◌, Option, none, some, [], ◌∷◌,
}
use rewind_os.Media.{Code, ok, err, BlockDevice, IsLawful}
use rewind_os.Media.Ready.{media_ready, content-media_ready}
use rewind_os.Media.Words.{AreWords}
use rewind_os.Disk.{RwosDisk, IsSealed, image, rwos_disk_parse}
use rewind_os.Disk.Table.{
  Disk, choose, rwos_disk_get, with_boot_target, with_last_snap, rwos_disk_read_best,
  rwos_disk_write_both,
}
use rewind_os.Disk.Calls.{
  rwos_disk_set_boot_target, rwos_disk_set_last_snap, write_table, rwos_disk_init, loaded,
  after_ready,
}
use rewind_os.Disk.Crash.{
  Reads, TearsDetectably, read_best_lem, write_both-read_best, write_both_survives,
}
use rewind_os.Disk.Update.{
  with_boot_target-IsSealed, with_last_snap-IsSealed, IsRetargeted, with_boot_target-IsRetargeted,
  with_boot_target-generation, with_last_snap-generation,
}

-- Both blocks hold the table.
abbrev pub OnCard : (D : BlockDevice) → RwosDisk → D.Card → Type 0
OnCard D d c = (D.content c 1 ≡ image d) × (D.content c 2 ≡ image d)

module _ (D : BlockDevice) (law : IsLawful D) (reads : Reads D) where
  open D use {Card}

  -- The table that the two blocks hold, if any.
  abbrev on_card : Card → Option RwosDisk
  on_card c = choose (rwos_disk_parse (D.content c 1)) (rwos_disk_parse (D.content c 2))

  loaded_lem :
      (sram : ℕ) (g : Disk) (r : Option RwosDisk × Card) (d : RwosDisk)
      → r.0 ≡ some d
      → loaded D sram g r ≡ (ok, (record { table = d; valid = true }, r.1))
  unfolding loaded
  loaded_lem sram g (some t, c) d e = cc
  loaded_lem sram g (none, c) d e = cc

  Finds : RwosDisk → Code × (Disk × Card) → Type 0
  Finds d r = r.0 ≡ ok → rwos_disk_get r.1.0 ≡ some d

  after_ready-Finds :
      (sram : ℕ) (g : Disk) (r : Code × Card) (d : RwosDisk)
      → on_card r.1 ≡ some d
      → Finds d (after_ready D sram g r)
  unfolding after_ready Finds rwos_disk_get
  after_ready-Finds sram g (ok, c) d e =
      rw (loaded_lem sram g (rwos_disk_read_best D c) d (read_best_lem D law reads c ∙ e))
        (λ done. refl)
  after_ready-Finds sram g (err n, c) d e = λ done. cc

  -- A start that succeeds finds the table that the blocks hold.
  pub init-on_card :
      (sram : ℕ) (g : Disk) (c : Card) (d : RwosDisk)
      → on_card c ≡ some d
      → (rwos_disk_init D sram g c).0 ≡ ok
      → rwos_disk_get (rwos_disk_init D sram g c).1.0 ≡ some d
  unfolding rwos_disk_init Finds
  init-on_card sram g c d e =
      let one = content-media_ready D law c 1 in
      let two = content-media_ready D law c 2 in
      after_ready-Finds sram (record g { valid = false }) (media_ready D c) d (rw (one, two) e)

  -- The table after an update that succeeded is found by the next start.
  written-get :
      (d : RwosDisk) (g h : Disk) (c : Card) (sram : ℕ)
      → IsSealed d
      → (write_table D d g c).0 ≡ ok
      → (rwos_disk_init D sram h (write_table D d g c).1.1).0 ≡ ok
      → rwos_disk_get (rwos_disk_init D sram h (write_table D d g c).1.1).1.0 ≡ some d
  unfolding write_table
  written-get d g h c sram s e =
      let after = (rwos_disk_write_both D d c).1 in
      init-on_card sram h after d
        (sym (read_best_lem D law reads after) ∙ write_both-read_best D law reads d c s e)

  -- A boot target that was set without an error is what the next start that succeeds finds, with the layout
  -- and the last snapshot of the old table: the old table was valid and sealed, and every block can be read.
  pub set_boot_target-init :
      (mode slot seq : ℕ) (g h : Disk) (c : Card) (sram : ℕ)
      → g.valid ≡ true
      → IsSealed g.table
      → AreWords (mode ∷ slot ∷ seq ∷ [])
      → (rwos_disk_set_boot_target D mode slot seq g c).0 ≡ ok
      → let started = rwos_disk_init D sram h (rwos_disk_set_boot_target D mode slot seq g c).1.1 in
        started.0 ≡ ok
        → (d : RwosDisk) × ((rwos_disk_get started.1.0 ≡ some d)
            × IsRetargeted mode slot seq g.table d)
  unfolding rwos_disk_set_boot_target
  set_boot_target-init mode slot seq g h c sram v s w =
      let d = with_boot_target mode slot seq g.table in
      let sealed = with_boot_target-IsSealed mode slot seq g.table w s in
      simp v (λ done started. (
        d,
        (
          written-get d g h c sram sealed done started,
          with_boot_target-IsRetargeted mode slot seq g.table,
        ),
      ))

  module _ (tears : TearsDetectably D) where
    survives-get :
        (d : RwosDisk) (g h : Disk) (c : Card) (sram : ℕ)
        → g.table.generation ≤ d.generation
        → IsSealed g.table
        → IsSealed d
        → OnCard D g.table c
        → let started = rwos_disk_init D sram h (write_table D d g c).1.1 in
          started.0 ≡ ok
          → (rwos_disk_get started.1.0 ≡ some g.table) ⊎ (rwos_disk_get started.1.0 ≡ some d)
    unfolding write_table
    survives-get d g h c sram le so sn (one, two) e =
        let after = (rwos_disk_write_both D d c).1 in
        elim (write_both_survives D law reads tears g.table d c le so sn one two) [
          | inl f ↦
              inl (init-on_card sram h after g.table (sym (read_best_lem D law reads after) ∙ f) e)
          | inr f ↦ inr (init-on_card sram h after d (sym (read_best_lem D law reads after) ∙ f) e)
        ]

    -- However an update of the boot target ends, the next start that succeeds finds the old table or the
    -- updated one: the old one was valid, sealed and in both blocks, every block can be read, and a
    -- half-written block is not taken for a table.
    pub set_boot_target_survives :
        (mode slot seq : ℕ) (g h : Disk) (c : Card) (sram : ℕ)
        → g.valid ≡ true
        → IsSealed g.table
        → AreWords (mode ∷ slot ∷ seq ∷ [])
        → OnCard D g.table c
        → let started =
            rwos_disk_init D sram h (rwos_disk_set_boot_target D mode slot seq g c).1.1 in
          started.0 ≡ ok
          → (rwos_disk_get started.1.0 ≡ some g.table)
            ⊎ (rwos_disk_get started.1.0 ≡ some (with_boot_target mode slot seq g.table))
    unfolding rwos_disk_set_boot_target
    set_boot_target_survives mode slot seq g h c sram v s w held = simp v (
        survives-get (with_boot_target mode slot seq g.table) g h c sram
          (with_boot_target-generation mode slot seq g.table) s
          (with_boot_target-IsSealed mode slot seq g.table w s) held)

    -- However a note of the last snapshot ends, the next start that succeeds finds the old table or the
    -- updated one, under the same conditions.
    pub set_last_snap_survives :
        (slot seq : ℕ) (g h : Disk) (c : Card) (sram : ℕ)
        → g.valid ≡ true
        → IsSealed g.table
        → AreWords (slot ∷ seq ∷ [])
        → OnCard D g.table c
        → let started = rwos_disk_init D sram h (rwos_disk_set_last_snap D slot seq g c).1.1 in
          started.0 ≡ ok
          → (rwos_disk_get started.1.0 ≡ some g.table)
            ⊎ (rwos_disk_get started.1.0 ≡ some (with_last_snap slot seq g.table))
    unfolding rwos_disk_set_last_snap
    set_last_snap_survives slot seq g h c sram v s w held = simp v (
        survives-get (with_last_snap slot seq g.table) g h c sram
          (with_last_snap-generation slot seq g.table) s
          (with_last_snap-IsSealed slot seq g.table w s) held)
