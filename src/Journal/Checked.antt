-- ===== src/Journal/Checked.antt =====
-- src/common_io/journal.c with the `PANIC_IF` of `jrnl_append_record` written out: `none` is the panic.
use rewind_os.Base.{
  ℕ, ◌-◌, Option, none, some, List, [], ◌∷◌, ◌++◌, if◌then◌else◌, ◌||◌, ◌==◌, ltb, leb, length,
}
use rewind_os.Media.{Code, ok, BlockDevice}
use rewind_os.Journal.{Journal, evt_rx_bytes}
use rewind_os.Journal.Calls.{
  is_off, drop_one, flushed, pending_cap, sched_err_disabled, sched_err_full, jrnl_append_record,
}

-- `JRNL_PAYLOAD_MAX`
abbrev pub payload_max : ℕ
payload_max = 512 - 44

module _ (D : BlockDevice) where
  open D use {Card}

  -- What a call returns, and the state after it.
  abbrev pub Returned : Type 0
  Returned = Code × (Journal × Card)

  unfoldable pub append_checked : ℕ → List ℕ → Journal → Card → Option Returned
  append_checked typ payload j c =
      if ltb payload_max (length payload) then none else some (jrnl_append_record D typ payload j c)

  unfoldable pub flushed_checked : Option Returned → Option Returned
  flushed_checked none = none
  flushed_checked (some r) = some (flushed D r)

  unfoldable pub flush_checked : Journal → Card → Option Returned
  flush_checked j c =
      if length j.pending == 0
      then some (ok, (j, c))
      else flushed_checked (append_checked evt_rx_bytes j.pending j c)

  unfoldable pub keep_checked : ℕ → Journal × Card → Option Returned
  keep_checked b (j, c) =
      let j₁ = record j { pending = j.pending ++ (b ∷ []) } in
      if (b == 13) || (b == 10) then flush_checked j₁ c else some (ok, (j₁, c))

  -- Behind the flush of a full buffer.
  unfoldable pub after_flush : ℕ → Option Returned → Option Returned
  after_flush b none = none
  after_flush b (some (rc, (j, c))) =
      if leb pending_cap (length j.pending)
      then some (sched_err_full, (drop_one j, c))
      else keep_checked b (j, c)

  unfoldable pub capture_checked : ℕ → Journal → Card → Option Returned
  capture_checked b j c =
      if is_off j || j.replaying
      then some (sched_err_disabled, (j, c))
      else (if ltb 0 j.suppress_rx_bytes
          then some (ok, (record j { suppress_rx_bytes = j.suppress_rx_bytes - 1 }, c))
          else (if leb pending_cap (length j.pending)
              then after_flush b (flush_checked j c)
              else keep_checked b (j, c)))
