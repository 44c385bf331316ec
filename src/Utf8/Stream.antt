-- ===== src/Utf8/Stream.antt =====
-- The decoder over chunks: termination, and independence of where the input is cut.
use binary_reader.Common.{
  ℕ, zero, suc, ◌+◌, ◌-◌, ◌≤◌, ◌<◌, bit_and, bit_or, ◌≡◌, ◌≢◌, refl, sym, ap, ap₂, subst, ◌∙◌,
  arith, false, Bool-cases, ◌⊎◌, inl, inr, List, [], ◌∷◌, ◌++◌, append_assoc, length, length-append,
  length-drop, get_or, drop, u32, ◌<<<◌, ltb, ◌==◌, if◌then◌else◌, get_or-append, drop-append,
  drop-append_past,
}
use binary_reader.Error.Defs.{ErrorInfo}
use binary_reader.Utf8.{
  Utf8Converter, DecodeResult, Status, success, error, stuck, warning, Sequence, code_point,
  invalid_at, get_num_bytes, byte_at, Round, finished, again, decode_round, decode_sequence,
  convert, read_rest, read_sequence, to_utf16, decode_loop, decode,
}

-- What a caller sees of a result: the text, and on success the partial sequence that is kept.
pub data View : Type 0 where
  done : List ℕ → List ℕ → View
  failed : List ℕ → View
  out_of_fuel : View

abbrev pub view_as : Status → List ℕ → List ℕ → View
view_as success temp output = done temp output
view_as warning temp output = done temp output
view_as error temp output = failed output
view_as stuck temp output = out_of_fuel

abbrev pub view : DecodeResult → View
view r = view_as r.status r.converter.temp r.output

-- The decoder without chunks, offsets and temporary space: one pass over a list of bytes.
data ScanStep : Type 0 where
  stop : List ℕ → ScanStep
  bad : ScanStep
  unit : List ℕ → List ℕ → ScanStep

scan_sequence : ℕ → List ℕ → Sequence → ScanStep
scan_sequence n l (invalid_at i) = bad
scan_sequence n l (code_point cp) = unit (to_utf16 cp) (drop n l)

scan_at : ℕ → List ℕ → ScanStep
scan_at b l =
    if get_num_bytes b == 0
    then bad
    else if ltb (length l) (get_num_bytes b)
    then stop l
    else scan_sequence (get_num_bytes b) l (read_sequence b (get_num_bytes b) [] l)

scan_step : List ℕ → ScanStep
scan_step [] = stop []
scan_step (b ∷ r) = scan_at b (b ∷ r)

scan : ℕ → List ℕ → List ℕ → View
scan zero l output = out_of_fuel
scan (suc fuel) l output = elim (scan_step l) [
  | stop kept ↦ done kept output
  | bad ↦ failed output
  | unit u rest ↦ scan fuel rest (output ++ u)
]

-- What the temporary space may hold: the proper beginning of a sequence.
abbrev pub IsPartial : List ℕ → Type 0
IsPartial [] = Unit {0}
IsPartial (t ∷ temp) = length (t ∷ temp) < get_num_bytes t

byte_at-append : (temp rest : List ℕ) (i : ℕ) → byte_at temp rest i ≡ byte_at [] (temp ++ rest) i
unfolding byte_at
byte_at-append temp rest i = ground (arith, get_or-append temp rest i 0)

read_rest-append :
    (left i : ℕ) (temp rest : List ℕ) (cp : ℕ)
    → read_rest left i temp rest cp ≡ read_rest left i [] (temp ++ rest) cp
unfolding read_rest
read_rest-append zero i temp rest cp = refl
read_rest-append (suc left) i temp rest cp = rw (
  byte_at-append temp rest i,
  read_rest-append left (i + 1) temp rest
      (bit_or (u32 (cp <<< 6)) (bit_and (byte_at [] (temp ++ rest) i) 0x3f)),
)

read_sequence-append :
    (b n : ℕ) (temp rest : List ℕ)
    → read_sequence b n temp rest ≡ read_sequence b n [] (temp ++ rest)
unfolding read_sequence
read_sequence-append b n temp rest = read_rest-append (n - 1) 1 temp rest _

-- A round of the loop does what a step of the scan does.
abbrev Matches : List ℕ → Round → ScanStep → Type 0
Matches output (finished r) (stop kept) = view r ≡ done kept output
Matches output (finished r) bad = view r ≡ failed output
Matches output (finished r) (unit u rest) = ⊥
Matches output (again rest o out) (stop kept) = ⊥
Matches output (again rest o out) bad = ⊥
Matches output (again rest o out) (unit u rest') = (rest ≡ rest') × (out ≡ output ++ u)

module _ (offset : ℕ) (output : List ℕ) (e : ErrorInfo) where
  convert-Matches :
      (n : ℕ) (temp rest : List ℕ) (q : Sequence)
      → length temp ≤ n
      → Matches output (convert n temp rest offset output e q) (scan_sequence n (temp ++ rest) q)
  unfolding convert scan_sequence
  convert-Matches n temp rest (invalid_at i) h = refl
  convert-Matches n temp rest (code_point cp) h = (sym (drop-append_past n temp rest h), refl)

  decode_sequence-Matches :
      (b : ℕ) (temp rest : List ℕ)
      → length temp ≤ get_num_bytes b
      → Matches output (decode_sequence b temp rest offset output e) (scan_at b (temp ++ rest))
  unfolding decode_sequence scan_at
  decode_sequence-Matches b temp rest h = elim (Bool-cases (get_num_bytes b == 0)) [
    | inl none ↦ rw none refl
    | inr some ↦ elim (Bool-cases (ltb (length (temp ++ rest)) (get_num_bytes b))) [
      | inl short ↦ rw (some, same, short) refl
      | inr long ↦
          rw (some, same, long, read_sequence-append b (get_num_bytes b) temp rest)
            (convert-Matches (get_num_bytes b) temp rest _ h)
    ]
  ]
    where
      same : length rest + length temp ≡ length (temp ++ rest)
      same = omega (arith, length-append temp rest)

  decode_round-Matches :
      (temp rest : List ℕ)
      → IsPartial temp
      → Matches output (decode_round temp rest offset output e) (scan_step (temp ++ rest))
  unfolding decode_round scan_step
  decode_round-Matches [] [] h = refl
  decode_round-Matches [] (b ∷ rest) h = decode_sequence-Matches b [] (b ∷ rest) (omega arith)
  decode_round-Matches (t ∷ temp) rest h = decode_sequence-Matches t (t ∷ temp) rest (omega arith)

loop_step :
    (e : ErrorInfo) (fuel : ℕ) (output : List ℕ) (r : Round) (s : ScanStep)
    → Matches output r s
    → ((rest : List ℕ) (o : ℕ) (out : List ℕ)
        → view (decode_loop fuel [] rest o out e) ≡ scan fuel rest out)
    → view (elim r as (λ _. DecodeResult) [
      | finished f ↦ f
      | again rest o out ↦ decode_loop fuel [] rest o out e
    ])
      ≡ (elim s as (λ _. View) [
        | stop kept ↦ done kept output
        | bad ↦ failed output
        | unit u rest ↦ scan fuel rest (output ++ u)
      ])
loop_step e fuel output (finished r) (stop kept) m ih = m
loop_step e fuel output (finished r) bad m ih = m
loop_step e fuel output (finished r) (unit u rest) m ih = absurd m
loop_step e fuel output (again rest o out) (stop kept) m ih = absurd m
loop_step e fuel output (again rest o out) bad m ih = absurd m
loop_step e fuel output (again rest o out) (unit u rest') m ih =
    ih rest o out ∙ ap₂ (scan fuel) m.0 m.1

-- The loop shows its caller what the scan of the kept bytes and the buffer gives.
decode_loop-scan :
    (fuel : ℕ) (temp rest : List ℕ) (offset : ℕ) (output : List ℕ) (e : ErrorInfo)
    → IsPartial temp
    → view (decode_loop fuel temp rest offset output e) ≡ scan fuel (temp ++ rest) output
unfolding decode_loop scan
decode_loop-scan zero temp rest offset output e h = refl
decode_loop-scan (suc fuel) temp rest offset output e h =
    loop_step e fuel output _ _ (decode_round-Matches offset output e temp rest h)
      (λ rest' o out. decode_loop-scan fuel [] rest' o out e tt)

-- A step takes at least one byte.
scan_step-shrinks : (l u rest : List ℕ) → scan_step l ≡ unit u rest → suc (length rest) ≤ length l
unfolding scan_step scan_at scan_sequence
scan_step-shrinks [] u rest h = cc
scan_step-shrinks (b ∷ l) u rest h = ground (arith, length-drop (get_num_bytes b) (b ∷ l))

ScanStep-cases :
    (s : ScanStep)
    → ((kept : List ℕ) × (s ≡ stop kept))
      ⊎ ((s ≡ bad) ⊎ ((u : List ℕ) × (rest : List ℕ) × (s ≡ unit u rest)))
ScanStep-cases (stop kept) = inl (kept, refl)
ScanStep-cases bad = inr (inl refl)
ScanStep-cases (unit u rest) = inr (inr (u, rest, refl))

-- With more fuel than bytes the scan ends, the same for any such fuel.
scan_enough :
    (f g : ℕ) (l output : List ℕ)
    → length l < f
    → length l < g
    → (scan f l output ≡ scan g l output) × (scan f l output ≢ out_of_fuel)
unfolding scan
scan_enough zero g l output hf hg = absurd (omega arith)
scan_enough (suc f) zero l output hf hg = absurd (omega arith)
scan_enough (suc f) (suc g) l output hf hg = elim (ScanStep-cases (scan_step l)) [
  | inl (kept, h) ↦ rw (h, scan) (refl, λ p. cc)
  | inr (inl h) ↦ rw (h, scan) (refl, λ p. cc)
  | inr (inr (u, rest, h)) ↦
      let less : suc (length rest) ≤ length l = scan_step-shrinks l u rest h in
      rw (h, scan) (scan_enough f g rest (output ++ u) (omega arith) (omega arith))
]

-- Bytes behind a whole sequence do not change how it is read.
read_rest_ahead :
    (left i : ℕ) (l ys : List ℕ) (cp : ℕ)
    → i + left ≤ length l
    → read_rest left i [] (l ++ ys) cp ≡ read_rest left i [] l cp
unfolding read_rest byte_at
read_rest_ahead zero i l ys cp h = refl
read_rest_ahead (suc left) i l ys cp h = ground (
  arith,
  get_or-append l ys i 0,
  read_rest_ahead left (i + 1) l ys (bit_or (u32 (cp <<< 6)) (bit_and (get_or l i 0) 0x3f)),
)

scan_sequence-append :
    (n : ℕ) (l ys : List ℕ) (q : Sequence) (u rest : List ℕ)
    → n ≤ length l
    → scan_sequence n l q ≡ unit u rest
    → scan_sequence n (l ++ ys) q ≡ unit u (rest ++ ys)
unfolding scan_sequence
scan_sequence-append n l ys (invalid_at i) u rest h e = cc
scan_sequence-append n l ys (code_point cp) u rest h e =
    cc (drop-append n l ys h, ap rest_of e, ap units_of e)
  where
    rest_of : ScanStep → List ℕ
    rest_of = elim [ stop k ↦ [] | bad ↦ [] | unit v r ↦ r ]

    units_of : ScanStep → List ℕ
    units_of = elim [ stop k ↦ [] | bad ↦ [] | unit v r ↦ v ]

scan_at-append :
    (b : ℕ) (l ys u rest : List ℕ)
    → scan_at b l ≡ unit u rest
    → scan_at b (l ++ ys) ≡ unit u (rest ++ ys)
unfolding scan_at
scan_at-append b l ys u rest h = elim (Bool-cases (get_num_bytes b == 0)) [
  | inl none ↦ cc (rw none at h)
  | inr some ↦ elim (Bool-cases (ltb (length l) (get_num_bytes b))) [
    | inl short ↦ cc (rw (some, short) at h)
    | inr long ↦
        let fits : get_num_bytes b ≤ length l = ground arith in
        let further : ltb (length (l ++ ys)) (get_num_bytes b) ≡ false =
          ground (arith, length-append l ys) in
        rw (some, further, ahead (ground arith) fits)
          (scan_sequence-append (get_num_bytes b) l ys _ u rest fits (rw (some, long) at h))
  ]
]
  where
    ahead :
        get_num_bytes b ≢ 0
        → get_num_bytes b ≤ length l
        → read_sequence b (get_num_bytes b) [] (l ++ ys) ≡ read_sequence b (get_num_bytes b) [] l
    ahead some fits =
        unfold read_sequence in read_rest_ahead (get_num_bytes b - 1) 1 l ys _ (omega arith)

scan_step-append :
    (l ys u rest : List ℕ) → scan_step l ≡ unit u rest → scan_step (l ++ ys) ≡ unit u (rest ++ ys)
unfolding scan_step
scan_step-append [] ys u rest h = cc
scan_step-append (b ∷ l) ys u rest h = scan_at-append b (b ∷ l) ys u rest h

scan_sequence-ne-stop :
    (n : ℕ) (l : List ℕ) (q : Sequence) (kept : List ℕ) → scan_sequence n l q ≢ stop kept
unfolding scan_sequence
scan_sequence-ne-stop n l (invalid_at i) kept e = cc
scan_sequence-ne-stop n l (code_point cp) kept e = cc

scan_at-stop :
    (b : ℕ) (l kept : List ℕ) → scan_at b l ≡ stop kept → (l ≡ kept) × (length l < get_num_bytes b)
unfolding scan_at
scan_at-stop b l kept h =
    ground (
      arith,
      scan_sequence-ne-stop (get_num_bytes b) l (read_sequence b (get_num_bytes b) [] l) kept,
    )

scan_step-stop : (l kept : List ℕ) → scan_step l ≡ stop kept → (l ≡ kept) × IsPartial kept
unfolding scan_step
scan_step-stop [] kept h = let same : [] ≡ kept = cc in (same, subst IsPartial same tt)
scan_step-stop (b ∷ l) kept h =
    let facts = scan_at-stop b (b ∷ l) kept h in (facts.0, subst IsPartial facts.0 facts.1)

-- What a scan keeps is partial, and the scan goes on from it as if there had been no cut.
scan-append :
    (f g : ℕ) (xs ys output kept out : List ℕ)
    → length (xs ++ ys) < g
    → scan f xs output ≡ done kept out
    → IsPartial kept × (scan g (kept ++ ys) out ≡ scan g (xs ++ ys) output)
unfolding scan
scan-append zero g xs ys output kept out hg h = cc
scan-append (suc f) zero xs ys output kept out hg h = absurd (omega arith)
scan-append (suc f) (suc g) xs ys output kept out hg h = elim (ScanStep-cases (scan_step xs)) [
  | inl (k, e) ↦
      let ends : done k output ≡ done kept out = rw (e, scan) at h in
      let facts = scan_step-stop xs k e in
      let same : k ≡ kept = ap kept_of ends in
      (subst IsPartial same facts.1, rw (facts.0, same, ap out_of ends) refl)
  | inr (inl e) ↦ cc (rw (e, scan) at h)
  | inr (inr (u, rest, e)) ↦
      let later : scan f rest (output ++ u) ≡ done kept out = rw (e, scan) at h in
      let shorter : suc (length rest) ≤ length xs = scan_step-shrinks xs u rest e in
      let room : length (rest ++ ys) < g =
        omega (arith, length-append rest ys, length-append xs ys) in
      let ih = scan-append f (suc g) rest ys (output ++ u) kept out (omega arith) later in
      (
        ih.0,
        ih.1
            ∙ (scan_enough (suc g) g (rest ++ ys) (output ++ u) (omega arith) room).0
            ∙ sym (opened rest u (scan_step-append xs ys u rest e)),
      )
]
  where
    kept_of : View → List ℕ
    kept_of = elim [ done k o ↦ k | failed o ↦ [] | out_of_fuel ↦ [] ]

    out_of : View → List ℕ
    out_of = elim [ done k o ↦ o | failed o ↦ o | out_of_fuel ↦ [] ]

    opened :
        (rest u : List ℕ)
        → scan_step (xs ++ ys) ≡ unit u (rest ++ ys)
        → scan (suc g) (xs ++ ys) output ≡ scan g (rest ++ ys) (output ++ u)
    opened rest u e = rw (e, scan) refl

decode-scan :
    (c : Utf8Converter) (buffer output : List ℕ) (e : ErrorInfo) (n : ℕ)
    → IsPartial c.temp
    → length (c.temp ++ buffer) < n
    → (view (decode c buffer output e) ≡ scan n (c.temp ++ buffer) output)
      × (scan n (c.temp ++ buffer) output ≢ out_of_fuel)
unfolding decode
decode-scan c buffer output e n h hn =
    let fuel : ℕ = length c.temp + length buffer + 1 in
    let all = c.temp ++ buffer in
    let fits : length all < fuel = omega (arith, length-append c.temp buffer) in
    (
      decode_loop-scan fuel c.temp buffer 0 output e h ∙ (scan_enough fuel n all output fits hn).0,
      (scan_enough n n all output hn hn).1,
    )

-- From a converter that holds a partial sequence, `Decode` comes to an end on every buffer.
pub decode-ne-stuck :
    (c : Utf8Converter) (buffer output : List ℕ) (e : ErrorInfo)
    → IsPartial c.temp
    → (decode c buffer output e).status ≢ stuck
decode-ne-stuck c buffer output e h = λ ends.
    let facts = decode-scan c buffer output e (suc (length (c.temp ++ buffer))) h (omega arith) in
    facts.1 (
      sym facts.0
      ∙ ap
          (λ s.
            view_as s (decode c buffer output e).converter.temp (decode c buffer output e).output)
          ends)

-- Where `Decode` of a first chunk succeeds, it keeps a proper beginning of a sequence, and decoding
-- a second chunk shows the caller what decoding both at once would: the same text, and the same
-- success or failure, with the same bytes kept on success.
pub decode_chunks :
    (c : Utf8Converter) (xs ys output : List ℕ) (e e' e'' : ErrorInfo)
    → IsPartial c.temp
    → (decode c xs output e).status ≡ success
    → let first = decode c xs output e in
      IsPartial first.converter.temp
      × (view (decode first.converter ys first.output e') ≡ view (decode c (xs ++ ys) output e''))
decode_chunks c xs ys output e e' e'' h ok =
    let first = decode c xs output e in
    let n : ℕ = suc (length ((c.temp ++ xs) ++ ys)) in
    let m : ℕ = suc (length (first.converter.temp ++ ys)) in
    let k : ℕ = n + m in
    let opening : length (c.temp ++ xs) < n = omega (arith, length-append (c.temp ++ xs) ys) in
    let begun =
      sym (decode-scan c xs output e n h opening).0
      ∙ ap (λ s. view_as s first.converter.temp first.output) ok in
    let cut =
      scan-append n k (c.temp ++ xs) ys output first.converter.temp first.output (omega arith)
        begun in
    let whole : length (c.temp ++ (xs ++ ys)) < k = rw (← append_assoc) (omega arith) in
    (
      cut.0,
      (decode-scan first.converter ys first.output e' k cut.0 (omega arith)).0
          ∙ cut.1
          ∙ ap (λ (l : List ℕ). scan k l output) (append_assoc c.temp xs ys)
          ∙ sym (decode-scan c (xs ++ ys) output e'' k h whole).0,
    )
