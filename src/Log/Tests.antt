-- ===== src/Log/Tests.antt =====
-- Runs of the log ring, and its theorems at a ring that has wrapped.
use rewind_os.Base.{
  ℕ, ◌≡◌, ◌≢◌, refl, none, some, List, [], ◌∷◌, ◌++◌, arith, take, drop, replicate,
}
use rewind_os.Log.{
  Log, ok, err, log_putc, log_write, log_read, log_put_hex32, log_basename, log_buf_size,
}
use rewind_os.Log.Keep.{IsValid, contents, keep_last, log_write_lem, log_read_lem}

-- Three bytes wait, the last of them at the start of the buffer.
abbrev wrapped : Log
wrapped = record { buf = replicate 512 65; head = 1; tail = 510; count = 3 }

wrapped-IsValid : IsValid wrapped
wrapped-IsValid = omega arith

hex_runs :
    (log_read 8 (log_put_hex32 0xbeef wrapped).1).0 ≡ 65 ∷ 65 ∷ 65 ∷ 48 ∷ 48 ∷ 48 ∷ 48 ∷ 66 ∷ []
unfolding log_read log_put_hex32 log_putc
hex_runs = refl

basename_runs : log_basename (b's' ∷ b'/' ∷ b'a' ∷ b'/' ∷ b'x' ∷ []) ≡ b'x' ∷ []
unfolding log_basename
basename_runs = refl

log_write_lem_example :
    let s : List ℕ = 1 ∷ 2 ∷ 3 ∷ [] in
    (log_write none 2 wrapped ≡ (err, wrapped))
    × (log_write (some s) 0 wrapped ≡ (err, wrapped))
    × IsValid (log_write (some s) 2 wrapped).1
    × (◌≢◌ {A = ℕ} 2 0
        → ((log_write (some s) 2 wrapped).0 ≡ ok)
          × (contents (log_write (some s) 2 wrapped).1
              ≡ keep_last log_buf_size (contents wrapped ++ take 2 s)))
log_write_lem_example = log_write_lem (1 ∷ 2 ∷ 3 ∷ []) 2 wrapped-IsValid

log_read_lem_example :
    let (out, g) = log_read 2 wrapped in
    (out ≡ take 2 (contents wrapped)) × (contents g ≡ drop 2 (contents wrapped)) × IsValid g
log_read_lem_example = log_read_lem 2 wrapped-IsValid
