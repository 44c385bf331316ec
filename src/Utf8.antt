-- ===== src/Utf8.antt =====
-- src/public/codecs.cc, `Utf8Converter`: the streaming UTF-8 decoder and the encoder.
-- `temp` holds the first `temp_used_` bytes of `temp_`: a sequence that a chunk cut off.
-- In the loops, the bytes from `buffer + offset` on are a list of their own beside `offset`.
pub mod Bytes
pub mod Sequences
pub mod Pairs
pub mod RoundTrip
pub mod Stream
use binary_reader.Common.{
  ℕ, zero, suc, ◌+◌, ◌-◌, ◌*◌, ◌/◌, ◌^◌, bit_and, bit_or, Bool, true, false, ◌&&◌, List, [], ◌∷◌,
  ◌++◌, codes, u8, u16, u32, u64, sub32, ◌<<<◌, ◌>>>◌, ltb, leb, ◌==◌, if◌then◌else◌, length,
  get_or, drop,
}
use binary_reader.Error.Defs.{ErrorInfo}

-- `stuck` is the model's own: the loop ran out of fuel. `Stream.decode-ne-stuck` excludes it.
pub data Status : Type 0 where
  success warning error stuck : Status

pub record Utf8Converter : Type 0 where
  pub temp : List ℕ

abbrev pub new_converter : Utf8Converter
new_converter = record { temp = [] }

-- `GetNumBytes`
unfoldable pub get_num_bytes : ℕ → ℕ
get_num_bytes head =
    if bit_and head 0x80 == 0
    then 1
    else if bit_and head 0xe0 == 0xc0
    then 2
    else if bit_and head 0xf0 == 0xe0
    then 3
    else if bit_and head 0xf8 == 0xf0
    then 4
    else 0

-- Byte `i` of the sequence: from the temporary space, and then from the buffer.
unfoldable pub byte_at : List ℕ → List ℕ → ℕ → ℕ
byte_at temp rest i =
    if ltb i (length temp) then get_or temp i 0 else get_or rest (i - length temp) 0

pub data Sequence : Type 0 where
  invalid_at : ℕ → Sequence
  code_point : ℕ → Sequence

-- `for (i = 1; i < num_bytes; i++)`, with the bytes that are left to read.
unfoldable pub read_rest : ℕ → ℕ → List ℕ → List ℕ → ℕ → Sequence
unfolding byte_at
read_rest zero i temp rest cp = code_point cp
read_rest (suc left) i temp rest cp =
    let cur = byte_at temp rest i in
    let more = read_rest left (i + 1) temp rest (bit_or (u32 (cp <<< 6)) (bit_and cur 0x3f)) in
    if bit_and cur 0xc0 == 0x80 then more else invalid_at i

unfoldable pub read_sequence : ℕ → ℕ → List ℕ → List ℕ → Sequence
unfolding read_rest
read_sequence head num_bytes temp rest =
    read_rest (num_bytes - 1) 1 temp rest (bit_and head ((1 <<< (8 - num_bytes)) - 1))

-- "Convert to UTF-16"
unfoldable pub to_utf16 : ℕ → List ℕ
to_utf16 cp =
    if ltb cp 0xffff
    then u16 cp ∷ []
    else let c = sub32 cp 0x10000 in
      u16 (bit_or 0xd800 (c >>> 10)) ∷ u16 (bit_or 0xdc00 (bit_and c 0x3ff)) ∷ []

pub record DecodeResult : Type 0 where
  pub status : Status
  pub converter : Utf8Converter
  pub output : List ℕ
  pub error_info : ErrorInfo

abbrev pub result : Status → List ℕ → List ℕ → ErrorInfo → DecodeResult
result s temp output e = record {
  status = s;
  converter = record { temp = temp };
  output = output;
  error_info = e;
}

unfoldable pub invalid : ErrorInfo → ℕ → ErrorInfo
invalid e at = record e {
  message = codes "Invalid UTF-8 byte sequence";
  offset = u64 (e.offset + at);
}

-- How a round of the loop ends: with a result, or with the bytes, the offset and the output that
-- the next round starts from (the temporary space is then empty).
pub data Round : Type 0 where
  finished : DecodeResult → Round
  again : List ℕ → ℕ → List ℕ → Round

-- The end of a round: the sequence is read, converted and passed over.
unfoldable pub convert : ℕ → List ℕ → List ℕ → ℕ → List ℕ → ErrorInfo → Sequence → Round
convert num_bytes temp rest offset output e (invalid_at i) =
    finished (result error temp output (invalid e (offset + i)))
convert num_bytes temp rest offset output e (code_point cp) =
    again (drop (num_bytes - length temp) rest) (offset + num_bytes - length temp)
      (output ++ to_utf16 cp)

unfoldable pub decode_sequence : ℕ → List ℕ → List ℕ → ℕ → List ℕ → ErrorInfo → Round
unfolding convert
decode_sequence head temp rest offset output e =
    let num_bytes = get_num_bytes head in
    if num_bytes == 0
    then finished (result error temp output (invalid e offset))
    else if ltb (length rest + length temp) num_bytes
    then finished (result success (temp ++ rest) output e)
    else convert num_bytes temp rest offset output e (read_sequence head num_bytes temp rest)

-- One round, which starts with the condition of the `while`.
unfoldable pub decode_round : List ℕ → List ℕ → ℕ → List ℕ → ErrorInfo → Round
unfolding decode_sequence
decode_round [] [] offset output e = finished (result success [] output e)
decode_round [] (b ∷ rest) offset output e = decode_sequence b [] (b ∷ rest) offset output e
decode_round (t ∷ temp) rest offset output e = decode_sequence t (t ∷ temp) rest offset output e

unfoldable pub decode_loop : ℕ → List ℕ → List ℕ → ℕ → List ℕ → ErrorInfo → DecodeResult
decode_loop zero temp rest offset output e = result stuck temp output e
decode_loop (suc fuel) temp rest offset output e = elim (decode_round temp rest offset output e) [
  | finished r ↦ r
  | again rest' offset' output' ↦ decode_loop fuel [] rest' offset' output' e
]

-- `Decode`. Each round takes at least one of the bytes kept and given.
unfoldable pub decode : Utf8Converter → List ℕ → List ℕ → ErrorInfo → DecodeResult
decode c buffer output e = decode_loop (length c.temp + length buffer + 1) c.temp buffer 0 output e

-- "Encode unpaired surrogate pairs directly."
unfoldable pub is_pair : ℕ → ℕ → Bool
is_pair a b = leb 0xd800 a && leb a 0xdbff && leb 0xdc00 b && leb b 0xdfff

-- `((buffer[i] & 0x3ff) << 10) | ((buffer[i + 1] & 0x3ff)) + 0x10000`, grouped as C++ does.
unfoldable pub combine : ℕ → ℕ → ℕ
combine a b = bit_or (bit_and a 0x3ff <<< 10) (bit_and b 0x3ff + 0x10000)

unfoldable pub put_code_point : ℕ → List ℕ
put_code_point cp =
    if ltb cp 0x80
    then u8 cp ∷ []
    else if ltb cp 0x800
    then u8 (bit_or 0xc0 (cp >>> 6)) ∷ u8 (bit_or 0x80 (bit_and cp 0x3f)) ∷ []
    else if ltb cp 0x10000
    then u8 (bit_or 0xe0 (cp >>> 12))
      ∷ u8 (bit_or 0x80 (bit_and (cp >>> 6) 0x3f))
      ∷ u8 (bit_or 0x80 (bit_and cp 0x3f))
      ∷ []
    else u8 (bit_or 0xf0 (cp >>> 18))
      ∷ u8 (bit_or 0x80 (bit_and (cp >>> 12) 0x3f))
      ∷ u8 (bit_or 0x80 (bit_and (cp >>> 6) 0x3f))
      ∷ u8 (bit_or 0x80 (bit_and cp 0x3f))
      ∷ []

-- The loop of `Encode`: what it appends.
unfoldable pub encode_units : List ℕ → List ℕ
unfolding is_pair combine put_code_point
encode_units [] = []
encode_units (a ∷ []) = put_code_point a
encode_units (a ∷ b ∷ rest) =
    let paired = put_code_point (combine a b) ++ encode_units rest in
    let single = put_code_point a ++ encode_units (b ∷ rest) in
    if is_pair a b then paired else single

-- `Encode` leaves the converter alone and always succeeds.
unfoldable pub encode : List ℕ → List ℕ → Status × List ℕ
unfolding encode_units
encode buffer output = (success, output ++ encode_units buffer)

-- `Reset`
unfoldable pub reset : Utf8Converter → Utf8Converter
reset c = record { temp = [] }
