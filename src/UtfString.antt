-- ===== src/UtfString.antt =====
-- src/public/utf_string.cc and the codec collection of src/public/codecs.cc. A `UtfString` is the
-- list of its UTF-16 units.
pub mod Order
use binary_reader.Common.{
  ℕ, List, [], ◌∷◌, Option, codes, lookup, insert, Bool, true, false, not, ◌&&◌, ◌||◌, ltb, ◌==◌,
  str_eq,
}
use binary_reader.Error.Defs.{ErrorInfo, empty_error}
use binary_reader.Utf8
use binary_reader.Utf8.{
  Status, success, error, warning, stuck, DecodeResult, new_converter, decode, encode,
}

-- `TextConverter`, as a fresh coder is used: one call of `Decode` or of `Encode`.
pub record TextConverter : Type 0 where
  pub decode : List ℕ → List ℕ → ErrorInfo → Status × List ℕ × ErrorInfo
  pub encode : List ℕ → List ℕ → ErrorInfo → Status × List ℕ × ErrorInfo

-- `Codec`: what `CreateCoder` returns.
pub record Codec : Type 0 where
  pub create_coder : TextConverter

-- `DefaultCodec<Utf8Converter>`
unfoldable pub utf8_codec : Codec
utf8_codec = record {
  create_coder = record {
    decode = λ bytes output e.
        let r = Utf8.decode new_converter bytes output e in (r.status, r.output, r.error_info);
    encode = λ units output e. let r = Utf8.encode units output in (r.0, r.1, e);
  };
}

-- `CodecCollection`, by name.
abbrev pub CodecCollection : Type 0
CodecCollection = List (List ℕ × Codec)

unfoldable pub get_codec : CodecCollection → List ℕ → Option Codec
unfolding lookup
get_codec codecs name = lookup name codecs

unfoldable pub get_default_codec : CodecCollection → Option Codec
unfolding get_codec
get_default_codec codecs = get_codec codecs (codes "utf8")

unfoldable pub add_codec : CodecCollection → List ℕ → Codec → CodecCollection
unfolding insert
add_codec codecs name codec = insert name codec codecs

unfoldable pub default_collection : CodecCollection
unfolding add_codec
default_collection =
    add_codec
      (add_codec (add_codec (add_codec [] (codes "utf8") utf8_codec) (codes "utf-8") utf8_codec)
        (codes "UTF8") utf8_codec)
      (codes "UTF-8") utf8_codec

-- `FromEncoding`: the string, empty on an error, and the error information.
keep_decoded : Status × List ℕ × ErrorInfo → List ℕ × ErrorInfo
keep_decoded (error, output, e) = ([], e)
keep_decoded (success, output, e) = (output, e)
keep_decoded (warning, output, e) = (output, e)
keep_decoded (stuck, output, e) = (output, e)

unfoldable pub from_encoding : List ℕ → Codec → ErrorInfo → List ℕ × ErrorInfo
unfolding keep_decoded
from_encoding bytes codec e = keep_decoded (codec.create_coder.decode bytes [] e)

-- `FromUtf8`; `utf8_codec` is what the default collection has under "utf8".
unfoldable pub from_utf8 : List ℕ → List ℕ
unfolding from_encoding utf8_codec
from_utf8 bytes = (from_encoding bytes utf8_codec empty_error).0

-- `AsBytes`
unfoldable pub as_bytes : List ℕ → Codec → ErrorInfo → List ℕ
as_bytes units codec e = (codec.create_coder.encode units [] e).1

unfoldable pub as_utf8 : List ℕ → List ℕ
unfolding as_bytes utf8_codec
as_utf8 units = as_bytes units utf8_codec empty_error

-- `AsUtf16` and `empty`
unfoldable pub as_utf16 : List ℕ → List ℕ
as_utf16 units = units

unfoldable pub empty : List ℕ → Bool
empty [] = true
empty (u ∷ us) = false

-- `operator<<`
unfoldable pub write_string : List ℕ → List ℕ
unfolding as_utf8
write_string units = as_utf8 units

-- The comparisons, which are those of `std::u16string`: unit by unit.
unfoldable pub string_eq : List ℕ → List ℕ → Bool
unfolding str_eq
string_eq a b = str_eq a b

unfoldable pub string_lt : List ℕ → List ℕ → Bool
string_lt [] [] = false
string_lt [] (y ∷ ys) = true
string_lt (x ∷ xs) [] = false
string_lt (x ∷ xs) (y ∷ ys) = ltb x y || (x == y && string_lt xs ys)

unfoldable pub string_ne : List ℕ → List ℕ → Bool
unfolding string_eq
string_ne a b = not (string_eq a b)

unfoldable pub string_le : List ℕ → List ℕ → Bool
unfolding string_lt
string_le a b = not (string_lt b a)

unfoldable pub string_gt : List ℕ → List ℕ → Bool
unfolding string_lt
string_gt a b = string_lt b a

unfoldable pub string_ge : List ℕ → List ℕ → Bool
unfolding string_lt
string_ge a b = not (string_lt a b)
