-- ===== src/Json/Rounds.antt =====
-- The loop of `DumpJsonObject` over the names of the fields.
use binary_reader.Common.{
  ℕ, suc, ◌<◌, List, [], ◌∷◌, ◌++◌, append_assoc, append-nil, length, All, ◌≡◌, refl, sym, ap,
  subst, Bool, true, false, not, ◌&&◌, ◌||◌, str_eq, str_eq_refl, codes, arith,
}
use binary_reader.Size.{Size}
use binary_reader.Error.Collection.{ErrorCollection}
use binary_reader.Exec.{Exec, done, ok, ◌>>=◌, ◌>>◌}
use binary_reader.File.{FileReader, IsFile}
use binary_reader.Buffered.Live.{NeverFails}
use binary_reader.Integer.Bytes.{IsByte}
use binary_reader.Value.{Value}
use binary_reader.Value.Numbers.{Doubles}
use binary_reader.TypeInfo.{Statements}
use binary_reader.FileObject.Located.{HoldsAll, Located-Holds}
use binary_reader.Parser.Names.{is_among, field_names}
use binary_reader.Json.{
  JsonOptions, Output, write, write_if, spaces, deeper, fetch, dump_json_value, dump_fields,
}
use binary_reader.Json.Document.{
  Members, no_more, member, names, is_empty, separated, text_if, items, render, depth_fields,
  depth-Located, ShowsAll, none_shown, one_shown,
}
use binary_reader.Json.Values.{IsObject, Dumps, kept, value_lem}
use binary_reader.Json.Writes.{
  Good, Writes, Writes-bind, Writes-as, Writes-after, Got, get_field_or_null-Got, Writes-fetch,
}

and_false : (b : Bool) → false ≡ (b && false)
and_false true = refl
and_false false = refl

or_true : (b : Bool) → (b || true) ≡ true
or_true true = refl
or_true false = refl

and_true : (b : Bool) → b ≡ (b && true)
and_true true = refl
and_true false = refl

pub All-among :
    (xs ys : List (List ℕ))
    → ((n : List ℕ) → is_among n xs ≡ true → is_among n ys ≡ true)
    → All (λ n. is_among n ys ≡ true) xs
All-among [] ys h = tt
All-among (x ∷ xs) ys h = (
  h x (rw (str_eq_refl x) refl),
  All-among xs ys (λ n among. h n (rw among (or_true (str_eq x n)))),
)

regroup :
    (c l n s t r : List ℕ) → c ++ (l ++ (n ++ (s ++ (t ++ r)))) ≡ c ++ ((l ++ (n ++ (s ++ t))) ++ r)
regroup c l n s t r = simp (append_assoc)

module _ {S : Type 0} (double : Doubles) (show_double : ℕ → List ℕ) (file : FileReader S)
    (Valid : S → Type 0) (content : S → List ℕ) (lawful : IsFile file Valid content)
    (bytes : List ℕ) (opts : JsonOptions) where
  module _ (dump : ℕ → ℕ → Exec (Output S) (Unit {0})) (fuel : ℕ)
      (dumps : Dumps double show_double file Valid content lawful bytes opts dump fuel) where
    pub record Looped (ss : Statements) (p : Size) (id indent : ℕ) (first : Bool)
        (ns : List (List ℕ)) (o : Output S) (e : ErrorCollection) : Type 0 where
      pub members : Members
      pub named : names members ≡ ns
      pub shown : ShowsAll bytes ss p members
      pub writes :
          Writes file Valid content lawful bytes
            (dump_fields double show_double file opts dump id indent first ns)
            (first && is_empty members)
            (separated first (items double show_double opts (deeper indent opts.indent) members))
            o
            e

    module _ (never : NeverFails file) (all : All IsByte bytes) (id indent : ℕ) (ss : Statements)
        (p : Size) (room : HoldsAll (length bytes) ss p) (deep : depth_fields ss < suc fuel)
        (e : ErrorCollection) where
      abbrev inner : ℕ
      inner = deeper indent opts.indent

      got_lem :
          (o : Output S) (name : List ℕ)
          → Good file Valid content lawful bytes o.world
          → IsObject double show_double file Valid content lawful bytes opts o id ss p
          → is_among name (field_names ss) ≡ true
          → Got file Valid content lawful bytes ss p name id o.world
      got_lem o name good (obj, there, type, start) among =
          subst (λ q. Got file Valid content lawful bytes ss q name id o.world) start
            (get_field_or_null-Got file Valid content lawful bytes never all id o.world good obj
              there ss type (subst (HoldsAll (length bytes) ss) (sym start) room) name among)

      module _ (name : List ℕ) (ns : List (List ℕ)) where
        abbrev value_on : Value → Exec (Output S) Bool
        value_on v =
            dump_json_value double show_double file opts dump v inner
            >> dump_fields double show_double file opts dump id indent false ns

        abbrev fetch_on : Exec (Output S) Bool
        fetch_on = fetch double show_double file opts id name >>= value_on

        abbrev space_on : Exec (Output S) Bool
        space_on = write_if opts.pretty (codes " ") >> fetch_on

        abbrev name_on : Exec (Output S) Bool
        name_on = write (codes "\"" ++ (name ++ codes "\":")) >> space_on

        abbrev break_on : Exec (Output S) Bool
        break_on = write_if opts.pretty (codes "\n" ++ spaces inner) >> name_on

        abbrev comma : Bool → List ℕ
        comma first = text_if (not first) (codes ",")

        abbrev line : List ℕ
        line = text_if opts.pretty (codes "\n" ++ spaces inner)

        abbrev quoted : List ℕ
        quoted = codes "\"" ++ (name ++ codes "\":")

        abbrev blank : List ℕ
        blank = text_if opts.pretty (codes " ")

        -- One round of the loop, where the rest of the loop goes on from the value.
        round :
            (first : Bool) (o : Output S)
            → Good file Valid content lawful bytes o.world
            → IsObject double show_double file Valid content lawful bytes opts o id ss p
            → is_among name (field_names ss) ≡ true
            → ((o' : Output S)
                → Good file Valid content lawful bytes o'.world
                → IsObject double show_double file Valid content lawful bytes opts o' id ss p
                → Looped ss p id indent false ns o' e)
            → Looped ss p id indent first (name ∷ ns) o e
        unfolding dump_fields separated items
        round first o good here among rest =
            let o1 : Output S = record o { text = o.text ++ comma first } in
            let o2 : Output S = record o1 { text = o1.text ++ line } in
            let o3 : Output S = record o2 { text = o2.text ++ quoted } in
            let o4 : Output S = record o3 { text = o3.text ++ blank } in
            let got = got_lem o4 name good here among in
            let o5 : Output S = record o4 { world = got.after } in
            let here5 =
              kept double show_double file Valid content lawful bytes opts o4 o5 id ss p got.extends
                here in
            let fits = Located-Holds (length bytes) ss p name got.type got.place room got.located in
            let shallow = depth-Located ss p name got.type got.place got.located in
            let valued =
              value_lem double show_double file Valid content lawful bytes opts all dump fuel dumps
                got.type got.place got.value inner o5 e got.good got.typed got.is_at fits
                (omega (arith, shallow, deep)) in
            let text = render double show_double opts inner valued.document in
            let o6 = valued.writes.after in
            let looped = rest o6 valued.writes.good (
              kept double show_double file Valid content lawful bytes opts o5 o6 id ss p
                valued.writes.extends here5) in
            let more = separated false (items double show_double opts inner looped.members) in
            let w5 =
              Writes-bind file Valid content lawful bytes
                (dump_json_value double show_double file opts dump got.value inner)
                (λ _. dump_fields double show_double file opts dump id indent false ns) tt false
                text more o5 e valued.writes looped.writes in
            let w4 =
              Writes-fetch file Valid content lawful bytes double show_double opts ss p name id
                value_on false (text ++ more) o4 e got w5 in
            let w3 =
              Writes-after file Valid content lawful bytes blank fetch_on false _ o3 e good w4 in
            let w2 =
              Writes-after file Valid content lawful bytes quoted space_on false _ o2 e good w3 in
            let w1 =
              Writes-after file Valid content lawful bytes line name_on false _ o1 e good w2 in
            let w0 =
              Writes-after file Valid content lawful bytes (comma first) break_on false _ o e good
                w1 in
            record {
              members = member name valued.document looped.members;
              named = ap (λ l. name ∷ l) looped.named;
              shown = one_shown got.type got.place got.located valued.shows looped.shown;
              writes =
                  Writes-as file Valid content lawful bytes
                    (dump_fields double show_double file opts dump id indent first (name ∷ ns))
                    false (first && false) _ _ o e (and_false first)
                    (regroup (comma first) line quoted blank text more) w0;
            }

      -- The loop over names of the type.
      pub loop :
          (first : Bool) (ns : List (List ℕ)) (o : Output S)
          → Good file Valid content lawful bytes o.world
          → IsObject double show_double file Valid content lawful bytes opts o id ss p
          → All (λ n. is_among n (field_names ss) ≡ true) ns
          → Looped ss p id indent first ns o e
      unfolding dump_fields separated items
      loop first [] o good here among = record {
        members = no_more;
        named = refl;
        shown = none_shown;
        writes = record {
          after = o;
          runs = ap (λ b. done (ok b) o e) (and_true first);
          good = good;
          extends = λ j q h. (q, h, refl, refl);
          written = sym (append-nil o.text);
        };
      }
      loop first (name ∷ ns) o good here (known, among) =
          round name ns first o good here known
            (λ o' good' here'. loop false ns o' good' here' among)
