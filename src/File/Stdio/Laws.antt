-- ===== src/File/Stdio/Laws.antt =====
-- `FileFileReader` keeps the contract of `FileReader`, over streams that behave as C documents.
use binary_reader.Common.{ℕ, ◌≡◌, sym, ap, ◌∙◌, arith, false, List, length, ltb, if◌then◌else◌}
use binary_reader.Error.Collection.{ErrorCollection}
use binary_reader.File.Stdio.{
  Stdio, IsStdio, StaysWithin, FileFileReader, file_reader, IsSized, content,
}

module _ {F : Type 0} (c : Stdio F) (held : F → List ℕ) where
  module _ (n : ℕ) (r : FileFileReader F) (e : ErrorCollection) where
    abbrev after_read : FileFileReader F
    after_read = record r { stream = (c.fread n r.stream).1 }

  module _ (p : ℕ) (r : FileFileReader F) (e : ErrorCollection) where
    abbrev clamped : ℕ
    clamped = if ltb r.size p then r.size else p

    abbrev after_seek : FileFileReader F
    after_seek = record r { stream = (c.fseek_set clamped r.stream).1 }

  module _ (lawful : IsStdio c held) (stays : StaysWithin c held) where
    -- The constructor of a stream whose seeks do not fail gives a reader at its start,
    -- whose size is that of the stream's bytes.
    pub file_reader-IsSized :
        (path : List ℕ) (f : F)
        → (c.fseek_end f).0 ≡ false
        → (c.fseek_set 0 (c.fseek_end f).1).0 ≡ false
        → let r = file_reader c path f in
          IsSized c held r × (c.ftell r.stream ≡ 0) × (content c held r ≡ held f)
    unfolding file_reader
    file_reader-IsSized path f at_end at_start =
        let kept = lawful.seek_data 0 (c.fseek_end f).1 ∙ lawful.end_data f in
        let start = lawful.seek_place 0 (c.fseek_end f).1 at_start in
        (
          record {
            size_is = lawful.end_place f at_end ∙ ap (length {A = ℕ}) (sym kept);
            within = omega (arith, start);
          },
          start,
          kept,
        )
