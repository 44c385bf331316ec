-- ===== src/Options.antt =====
-- include/binary_reader/options.h and src/public/options.cc: the options of a type, how a string
-- is parsed as one, and the record that holds their values.
pub mod Laws
use binary_reader.Common.{
  ℕ, zero, suc, Bool, true, false, not, ◌&&◌, ◌||◌, List, [], ◌∷◌, ◌++◌, codes, str_eq, Option,
  none, some, ◌==◌, if◌then◌else◌,
}

pub data OptionType : Type 0 where
  unknown signedness byte_order : OptionType

pub data Signedness : Type 0 where
  unset signed unsigned : Signedness

pub data ByteOrder : Type 0 where
  unset little_endian big_endian : ByteOrder

-- `to_string`, on the values that the enumerations list.
unfoldable pub option_type_name : OptionType → List ℕ
option_type_name unknown = codes "Unknown"
option_type_name signedness = codes "signedness"
option_type_name byte_order = codes "byte_order"

unfoldable pub signedness_name : Signedness → List ℕ
signedness_name signed = codes "signed"
signedness_name unsigned = codes "unsigned"
signedness_name _ = codes "<Unknown Signedness>"

unfoldable pub byte_order_name : ByteOrder → List ℕ
byte_order_name little_endian = codes "little"
byte_order_name big_endian = codes "big"
byte_order_name _ = codes "<Unknown ByteOrder>"

-- `GetOptionType`, on the UTF-16 units of its argument.
unfoldable pub get_option_type : List ℕ → OptionType
get_option_type type =
    if str_eq type (codes "signedness")
    then signedness
    else if str_eq type (codes "byte_order") || str_eq type (codes "order")
    then byte_order
    else unknown

-- The `std::any` of an option's value.
pub data AnyOption : Type 0 where
  nothing : AnyOption
  any_signedness : Signedness → AnyOption
  any_byte_order : ByteOrder → AnyOption

-- The value of an enumerator (`C`), and `Cast` back from it.
unfoldable pub signedness_code : Signedness → ℕ
signedness_code Signedness.unset = 0
signedness_code signed = 1
signedness_code unsigned = 2

unfoldable pub byte_order_code : ByteOrder → ℕ
byte_order_code ByteOrder.unset = 0
byte_order_code little_endian = 1
byte_order_code big_endian = 2

unfoldable pub cast_signedness : ℕ → AnyOption
cast_signedness v =
    any_signedness (if v == 1 then signed else if v == 2 then unsigned else Signedness.unset)

unfoldable pub cast_byte_order : ℕ → AnyOption
cast_byte_order v =
    any_byte_order
      (if v == 1 then little_endian else if v == 2 then big_endian else ByteOrder.unset)

pub record OptionTypeInfo : Type 0 where
  pub type : OptionType
  pub cast : ℕ → AnyOption
  pub values : List (List ℕ × ℕ)

-- `kOptionData`
unfoldable pub option_data : List OptionTypeInfo
unfolding signedness_code byte_order_code cast_signedness cast_byte_order
option_data =
    record {
      type = signedness;
      cast = cast_signedness;
      values =
          (codes "signed", signedness_code signed)
          ∷ (codes "unsigned", signedness_code unsigned)
          ∷ [];
    }
    ∷ record {
      type = byte_order;
      cast = cast_byte_order;
      values =
          (codes "big", byte_order_code big_endian)
          ∷ (codes "network", byte_order_code big_endian)
          ∷ (codes "little", byte_order_code little_endian)
          ∷ [];
    }
    ∷ []

abbrev pub type_eq : OptionType → OptionType → Bool
type_eq unknown unknown = true
type_eq signedness signedness = true
type_eq byte_order byte_order = true
type_eq _ _ = false

-- An `std::unordered_set<OptionType>`, in any order.
abbrev pub contains : List OptionType → OptionType → Bool
contains [] t = false
contains (s ∷ ss) t = type_eq s t || contains ss t

abbrev pub is_none : List OptionType → Bool
is_none [] = true
is_none (s ∷ ss) = false

-- On success with the two results that `ParseOption` writes through its pointers.
pub data ParseResult : Type 0 where
  success : OptionType → AnyOption → ParseResult
  invalid_value_type unknown_string ambiguous : ParseResult

-- The inner loop: the value of the first entry of that name.
unfoldable pub find_value : List ℕ → List (List ℕ × ℕ) → Option ℕ
find_value name [] = none
find_value name ((n, v) ∷ vs) = if str_eq name n then some v else find_value name vs

-- The outer loop. `found` is what an earlier type has matched.
unfoldable pub parse_loop :
    List OptionType → List ℕ → Option (OptionType × AnyOption) → List OptionTypeInfo → ParseResult
unfolding find_value
parse_loop types name none [] = unknown_string
parse_loop types name (some (t, v)) [] = success t v
parse_loop types name found (info ∷ infos) =
    let skip = parse_loop types name found infos in
    if not (is_none types) && not (contains types info.type)
    then skip
    else elim (find_value name info.values) [
      | none ↦ skip
      | some v ↦ elim found [
        | some earlier ↦ ambiguous
        | none ↦ parse_loop types name (some (info.type, info.cast v)) infos
      ]
    ]

-- `Options::ParseOption` on a string value; other values give `invalid_value_type`.
unfoldable pub parse_option : List OptionType → Option (List ℕ) → ParseResult
unfolding parse_loop option_data
parse_option types none = invalid_value_type
parse_option types (some name) = parse_loop types name none option_data

pub record Options : Type 0 where
  pub signedness : Signedness
  pub byte_order : ByteOrder

-- `Options()` and `Options::DefaultOptions`.
abbrev pub new_options : Options
new_options = record { signedness = Signedness.unset; byte_order = ByteOrder.unset }

abbrev pub default_options : Options
default_options = record { signedness = unsigned; byte_order = big_endian }

-- `GetOption<Signedness>(default_)` and `GetOption<ByteOrder>(default_)`.
unfoldable pub get_signedness : Signedness → Signedness → Signedness
get_signedness Signedness.unset default = default
get_signedness signed default = signed
get_signedness unsigned default = unsigned

unfoldable pub get_byte_order : ByteOrder → ByteOrder → ByteOrder
get_byte_order ByteOrder.unset default = default
get_byte_order little_endian default = little_endian
get_byte_order big_endian default = big_endian

-- `GetOption(type, defaults)`
unfoldable pub get_option : Options → OptionType → Options → AnyOption
unfolding get_signedness get_byte_order
get_option o signedness defaults = any_signedness (get_signedness o.signedness defaults.signedness)
get_option o byte_order defaults = any_byte_order (get_byte_order o.byte_order defaults.byte_order)
get_option o unknown defaults = nothing

-- `SetOption`: whether the value has the option's type, and the options afterwards.
unfoldable pub set_option : Options → OptionType → AnyOption → Bool × Options
set_option o signedness (any_signedness s) = (true, record o { signedness = s })
set_option o byte_order (any_byte_order b) = (true, record o { byte_order = b })
set_option o _ _ = (false, o)

-- `CheckOptionData`: no type twice, and no name twice within a type.
abbrev contains_name : List (List ℕ) → List ℕ → Bool
contains_name [] n = false
contains_name (m ∷ ms) n = str_eq m n || contains_name ms n

unfoldable pub names_distinct : List (List ℕ) → List (List ℕ × ℕ) → Bool
names_distinct seen [] = true
names_distinct seen ((n, v) ∷ vs) = not (contains_name seen n) && names_distinct (n ∷ seen) vs

unfoldable pub check_loop : List OptionType → List OptionTypeInfo → Bool
check_loop seen [] = true
check_loop seen (info ∷ infos) =
    not (contains seen info.type)
    && names_distinct [] info.values
    && check_loop (info.type ∷ seen) infos

unfoldable pub check_option_data : Bool
unfolding check_loop names_distinct option_data
check_option_data = check_loop [] option_data
