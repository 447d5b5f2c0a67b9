-- ===== src/Disk/Image.antt =====
-- A table is read back from the block that holds it.
use rewind_os.Base.{◌≡◌, sym, ap, ◌∙◌, some, [], length, arith, append-nil, take_all}
use rewind_os.Media.Words.{words, words-bytes}
use rewind_os.Disk.{RwosDisk, to_words, image, of_words, IsSealed, rwos_disk_parse, parse_words}
use rewind_os.Disk.{parse_native}

of_words-to_words : (d : RwosDisk) → length d.reserved ≡ 109 → of_words (to_words d) ≡ d
of_words-to_words d e = ap (λ r. record d { reserved = r }) (take_all 109 d.reserved (omega arith))

words-image : (d : RwosDisk) → IsSealed d → words (image d) ≡ to_words d
unfolding words
words-image d s =
    ap words (sym (append-nil (image d)))
    ∙ words-bytes (to_words d) [] s.are_words
    ∙ append-nil (to_words d)

parse_words-to_words : (d : RwosDisk) → IsSealed d → parse_words (to_words d) ≡ some d
unfolding parse_words parse_native
parse_words-to_words d s =
    let m = s.magic_lem in
    let v = s.version_lem in
    let k = s.checksum_lem in rw (of_words-to_words d s.reserved_length) (ground arith)

-- What a sealed table is stored as is read back as the table.
pub rwos_disk_parse-image : (d : RwosDisk) → IsSealed d → rwos_disk_parse (image d) ≡ some d
unfolding rwos_disk_parse
rwos_disk_parse-image d s = rw (words-image d s) (parse_words-to_words d s)
