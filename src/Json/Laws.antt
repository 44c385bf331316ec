-- ===== src/Json/Laws.antt =====
-- `DumpJsonObject`: what it writes is the text of a document of the file.
use binary_reader.Common.{
  ℕ, zero, suc, ◌<◌, List, ◌++◌, length, get_elem?, All, some, ◌≡◌, refl, sym, subst, ◌∙◌, Bool,
  true, not, ◌&&◌, ◌==◌, codes, arith,
}
use binary_reader.Size.{Size}
use binary_reader.Error.Collection.{ErrorCollection}
use binary_reader.Exec.{Exec, ◌>>=◌, ◌>>◌}
use binary_reader.File.{FileReader, IsFile}
use binary_reader.Buffered.Live.{NeverFails}
use binary_reader.Integer.Bytes.{IsByte}
use binary_reader.Value.Numbers.{Doubles}
use binary_reader.TypeInfo.{Statements}
use binary_reader.FileObject.{FileObject, get_field_names}
use binary_reader.FileObject.Located.{HoldsAll, Covers, get_field_names-Covers}
use binary_reader.Parser.Names.{field_names}
use binary_reader.Json.{
  JsonOptions, Output, write, write_if, spaces, deeper, dump_fields, dump_json_object,
}
use binary_reader.Json.Document.{Members, is_empty, separated, text_if, items, render, depth_fields}
use binary_reader.Json.Writes.{Good, Writes-write, Writes-bind, Writes-after}
use binary_reader.Json.Values.{IsObject, Dumped, Dumps}
use binary_reader.Json.Rounds.{All-among, Looped, loop}

module _ {S : Type 0} (double : Doubles) (show_double : ℕ → List ℕ) (file : FileReader S)
    (Valid : S → Type 0) (content : S → List ℕ) (lawful : IsFile file Valid content)
    (bytes : List ℕ) (opts : JsonOptions) where
  module _ (dump : ℕ → ℕ → Exec (Output S) (Unit {0})) (fuel : ℕ)
      (dumps : Dumps double show_double file Valid content lawful bytes opts dump fuel) where
    module _ (never : NeverFails file) (all : All IsByte bytes) (id indent : ℕ) (ss : Statements)
        (p : Size) (room : HoldsAll (length bytes) ss p) (deep : depth_fields ss < suc fuel)
        (e : ErrorCollection) where
      module _ (obj : FileObject) (o : Output S)
          (good : Good file Valid content lawful bytes o.world)
          (there : get_elem? o.world.heap id ≡ some obj) (type : obj.type ≡ some ss)
          (start : obj.start_position ≡ p) where
        abbrev opened : Output S
        opened = record o { text = o.text ++ codes "{" }

        covers : Covers (get_field_names obj) ss
        covers = get_field_names-Covers bytes o.world.heap obj ss (good.heap_ok id obj there) type

        looped :
            Looped double show_double file Valid content lawful bytes opts dump fuel dumps ss p id
              indent true
              (get_field_names obj)
              opened
              e
        looped =
            loop double show_double file Valid content lawful bytes opts dump fuel dumps never all
              id indent ss p room deep e true (get_field_names obj) opened good
              (obj, there, type, start)
              (All-among (get_field_names obj) (field_names ss) (λ n h. sym (covers.1 n) ∙ h))

        abbrev closing : Members → List ℕ
        closing ms = text_if (not (is_empty ms) && opts.pretty) (codes "\n" ++ spaces indent)

        abbrev last : List ℕ
        last = text_if (opts.pretty && (indent == 0)) (codes "\n")

        abbrev close : Bool → Exec (Output S) (Unit {0})
        close first =
            write_if (not first && opts.pretty) (codes "\n" ++ spaces indent)
            >> (write (codes "}") >> write last)

        abbrev body : Exec (Output S) (Unit {0})
        body =
            dump_fields double show_double file opts dump id indent true (get_field_names obj)
            >>= close

        -- The object between its braces.
        dumped :
            Dumped double show_double file Valid content lawful bytes opts
              (write (codes "{") >> body)
              ss
              p
              indent
              o
              e
        unfolding render
        dumped =
            let ms = looped.members in
            let o1 = looped.writes.after in
            let good1 = looped.writes.good in
            let o2 : Output S = record o1 { text = o1.text ++ closing ms } in
            let o3 : Output S = record o2 { text = o2.text ++ codes "}" } in
            let w3 = Writes-write file Valid content lawful bytes last o3 e good1 in
            let w2 =
              Writes-after file Valid content lawful bytes (codes "}") (write last) tt last o2 e
                good1 w3 in
            let w1 =
              Writes-after file Valid content lawful bytes (closing ms)
                (write (codes "}") >> write last) tt (codes "}" ++ last) o1 e good1 w2 in
            record {
              members = ms;
              covers = subst (λ ns. Covers ns ss) (sym looped.named) covers;
              shown = looped.shown;
              writes = Writes-after file Valid content lawful bytes (codes "{") body tt _ o e good (
                  Writes-bind file Valid content lawful bytes
                    (dump_fields double show_double file opts dump id indent true
                      (get_field_names obj))
                    close (is_empty ms) tt
                    (separated true (items double show_double opts (deeper indent opts.indent) ms))
                    (closing ms ++ (codes "}" ++ last)) opened e looped.writes w1);
            }

  -- The same call by another name.
  Dumped-as :
      (m m' : Exec (Output S) (Unit {0})) (ss : Statements) (p : Size) (indent : ℕ) (o : Output S)
      (e : ErrorCollection)
      → m' o e ≡ m o e
      → Dumped double show_double file Valid content lawful bytes opts m ss p indent o e
      → Dumped double show_double file Valid content lawful bytes opts m' ss p indent o e
  Dumped-as m m' ss p indent o e same h = record {
    members = h.members;
    covers = h.covers;
    shown = h.shown;
    writes = record {
      after = h.writes.after;
      runs = same ∙ h.writes.runs;
      good = h.writes.good;
      extends = h.writes.extends;
      written = h.writes.written;
    };
  }

  module _ (never : NeverFails file) (all : All IsByte bytes) where
    -- Over a file whose reads and seeks never fail, `DumpJsonObject` of an object in a good world, all
    -- of whose integers lie within the file, with more fuel than its type is nested deep, succeeds. What
    -- it adds to the output is the text, with integers as decimal numerals, of a document with the names
    -- of the type's fields, each once, in which each name has what the bytes of the file hold for the
    -- type of a field of the name at the field's place. The world stays good, with all its objects in
    -- it, and the errors stay as they are.
    pub dump_json_object-Dumped :
        (fuel id indent : ℕ) (ss : Statements) (p : Size) (o : Output S) (e : ErrorCollection)
        → Good file Valid content lawful bytes o.world
        → IsObject double show_double file Valid content lawful bytes opts o id ss p
        → HoldsAll (length bytes) ss p
        → depth_fields ss < fuel
        → Dumped double show_double file Valid content lawful bytes opts
            (dump_json_object double show_double file opts fuel id indent)
            ss
            p
            indent
            o
            e
    unfolding dump_json_object
    dump_json_object-Dumped zero id indent ss p o e good here room deep = absurd (omega arith)
    dump_json_object-Dumped (suc fuel) id indent ss p o e good (obj, there, type, start) room deep =
        Dumped-as _ (dump_json_object double show_double file opts (suc fuel) id indent) ss p indent
          o e (rw (there, dump_json_object) refl)
          (dumped (dump_json_object double show_double file opts fuel) fuel
            (dump_json_object-Dumped fuel) never all id indent ss p room deep e obj o good there
            type start)
