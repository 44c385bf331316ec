-- ===== src/File/ReadFully.antt =====
-- `ReadFully` over any reader that keeps the contract of the interface.
use binary_reader.Common.{
  ℕ, zero, suc, ◌+◌, ◌<◌, ◌≡◌, refl, ap₂, subst, ◌∙◌, arith, List, [], ◌∷◌, ◌++◌, Option, none,
  length, take, drop, Option-cases, length-append, take_all, take-append_drop, ◌⊎◌, inl, inr,
}
use mathlib.Core.Option
use native.Mathlib.Decide.{dec_lt}
use binary_reader.Error.Collection.{ErrorCollection}
use binary_reader.Exec.{Outcome-cases, Outcome, ok, failed, stuck}
use binary_reader.File.{FileReader, IsFile, read_loop, read_fully, read_size}

-- A result that is not stuck, and gives `whole` where it succeeds.
abbrev pub Gives : List ℕ → Outcome (List ℕ) → Type 0
Gives whole (ok bytes) = bytes ≡ whole
Gives whole failed = Unit {0}
Gives whole stuck = ⊥

module _ {S : Type 0} (file : FileReader S) (Valid : S → Type 0) (content : S → List ℕ)
    (lawful : IsFile file Valid content) where
  -- The size that the first round asks for is positive unless the file is empty.
  Asks : Option ℕ → S → Type 0
  Asks size s = (0 < Option.get_or size read_size) ⊎ (length (content s) ≡ 0)

  Asks-more : (s : S) → Asks none s
  unfolding Asks read_size
  Asks-more s = inl (omega arith)

  -- One round, of a loop that has read `ret` and stands behind it.
  module _ (size : Option ℕ) (ret : List ℕ) (s : S) (e : ErrorCollection) (v : Valid s)
      (pre : ret ≡ take (length ret) (content s)) (here : file.position s ≡ length ret) where
    abbrev asked : ℕ
    asked = Option.get_or size read_size

    abbrev next : S
    next = (file.read asked s e).state

    same : content next ≡ content s
    same = lawful.read_same asked s e v

    at_end : Asks size s → (file.read asked s e).outcome ≡ ok [] → ret ≡ content s
    unfolding Asks
    at_end asks got =
        pre
        ∙ take_all (length ret) (content s) (elim asks [
          | inr empty ↦ omega arith
          | inl pos ↦ elim (dec_lt (file.position s) (length (content s))) [
            | yes more ↦ absurd (omega (arith, lawful.read_some asked s e [] v got pos more))
            | no past ↦ omega arith
          ]
        ])

    module _ (bytes : List ℕ) (got : (file.read asked s e).outcome ≡ ok bytes) where
      joined : ret ++ bytes ≡ take (length (ret ++ bytes)) (content next)
      joined =
          let from : bytes ≡ take (length bytes) (drop (length ret) (content s)) =
            rw here at (lawful.read_bytes asked s e bytes v got).0 in
          rw (same, length-append ret bytes)
            (ap₂ ◌++◌ pre from ∙ take-append_drop (length ret) (length bytes) (content s))

      moved : file.position next ≡ length (ret ++ bytes)
      moved = omega (arith, (lawful.read_bytes asked s e bytes v got).2, length-append ret bytes)

  read_loop-Gives :
      (fuel : ℕ) (size : Option ℕ) (ret : List ℕ) (s : S) (e : ErrorCollection)
      → Valid s
      → Asks size s
      → ret ≡ take (length ret) (content s)
      → file.position s ≡ length ret
      → length (content s) < fuel + length ret
      → Gives (content s) (read_loop file fuel size ret s e).outcome
  unfolding read_loop
  read_loop-Gives zero size ret s e v asks pre here room =
      absurd (omega (arith, lawful.position_le s v))
  read_loop-Gives (suc fuel) size ret s e v asks pre here room =
      let r = file.read (Option.get_or size read_size) s e in
      let again =
        λ (b : ℕ) (bs : List ℕ). read_loop-Gives fuel none (ret ++ (b ∷ bs)) r.state r.errors in
      elim (Outcome-cases r.outcome) [
        | inl ([], got) ↦ rw (got, read_loop) (at_end size ret s e v pre here asks got)
        | inl (b ∷ bs, got) ↦
            rw (got, read_loop)
              (subst
                (λ (c : List ℕ).
                  Gives c (read_loop file fuel none (ret ++ (b ∷ bs)) r.state r.errors).outcome)
                (same size ret s e v pre here)
                (again b bs (lawful.read_valid _ s e v) (Asks-more r.state)
                  (joined size ret s e v pre here (b ∷ bs) got)
                  (moved size ret s e v pre here (b ∷ bs) got)
                  (rw (same size ret s e v pre here) (omega (arith, length-append ret (b ∷ bs))))))
        | inr (inl lost) ↦ rw (lost, read_loop) tt
        | inr (inr out) ↦ absurd (lawful.read_ends (Option.get_or size read_size) s e v out)
      ]

  Asks-first : (s : S) → Valid s → Asks (file.size s) s
  unfolding Asks
  Asks-first s v = elim (Option-cases (file.size s)) [
    | inl unknown ↦ rw unknown (unfold read_size in inl (omega arith))
    | inr (n, known) ↦
        let size : n ≡ length (content s) = lawful.size_lem s n v known in
        elim (dec_lt 0 n) [ yes pos ↦ rw known (inl pos) | no empty ↦ inr (omega arith) ]
  ]

  -- With more fuel than the file has bytes, `ReadFully` of a valid reader ends; it gives the whole
  -- file, from wherever the reader stood, or fails.
  pub read_fully-Gives :
      (fuel : ℕ) (s : S) (e : ErrorCollection)
      → Valid s
      → length (content s) < fuel
      → Gives (content s) (read_fully file fuel s e).outcome
  unfolding read_fully
  read_fully-Gives fuel s e v room =
      let r = file.seek 0 s e in
      let same = lawful.seek_same 0 s e v in
      elim (Outcome-cases r.outcome) [
        | inl (q, went) ↦
            let start : file.position r.state ≡ 0 =
              omega (arith, lawful.seek_position 0 s e q v went) in
            let valid = lawful.seek_valid 0 s e v in
            rw went (
              subst
                (λ (c : List ℕ).
                  Gives c (read_loop file fuel (file.size r.state) [] r.state r.errors).outcome)
                same
                (read_loop-Gives fuel (file.size r.state) [] r.state r.errors valid
                  (Asks-first r.state valid) refl start (rw same (omega arith))))
        | inr (inl lost) ↦ rw lost tt
        | inr (inr out) ↦ absurd (lawful.seek_ends 0 s e v out)
      ]
