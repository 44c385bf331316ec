-- ===== src/Options/Laws.antt =====
-- What parsing an option gives, and what it guarantees to the code that sets it.
use binary_reader.Common.{
  ℕ, Bool, true, List, Option, none, some, ◌≡◌, arith, codes, str_eq, str_eq_iff, ◌||◌,
  if◌then◌else◌,
}
use binary_reader.Options.{
  OptionType, signedness, byte_order, AnyOption, any_signedness, any_byte_order, signed, unsigned,
  little_endian, big_endian, success, unknown_string, Options, parse_option, set_option, get_option,
  contains, is_none,
}

-- The option and the value that a name stands for.
unfoldable pub meaning : List ℕ → Option (OptionType × AnyOption)
meaning name =
    if str_eq name (codes "signed")
    then some (signedness, any_signedness signed)
    else if str_eq name (codes "unsigned")
    then some (signedness, any_signedness unsigned)
    else if str_eq name (codes "big")
    then some (byte_order, any_byte_order big_endian)
    else if str_eq name (codes "network")
    then some (byte_order, any_byte_order big_endian)
    else if str_eq name (codes "little")
    then some (byte_order, any_byte_order little_endian)
    else none

abbrev pub allowed : List OptionType → OptionType → Bool
allowed types t = is_none types || contains types t

-- A string value means what its name means, if the type asked for allows that option; all other
-- strings are unknown, and no string is ambiguous.
pub parse_option-meaning :
    (types : List OptionType) (name : List ℕ)
    → parse_option types (some name) ≡ (elim (meaning name) [
      | none ↦ unknown_string
      | some (t, a) ↦ if allowed types t then success t a else unknown_string
    ])
unfolding parse_option meaning
parse_option-meaning types name = ground (
  arith,
  str_eq_iff name (codes "signed"),
  str_eq_iff name (codes "unsigned"),
  str_eq_iff name (codes "big"),
  str_eq_iff name (codes "network"),
  str_eq_iff name (codes "little"),
)

-- An option that a string parses to belongs to an allowed type and can always be set, and reading it
-- back gives the value, whatever the defaults are.
pub set_option-parse_option :
    (types : List OptionType) (name : List ℕ) (t : OptionType) (a : AnyOption)
    (o defaults : Options)
    → parse_option types (some name) ≡ success t a
    → (allowed types t ≡ true)
      × ((set_option o t a).0 ≡ true)
      × (get_option (set_option o t a).1 t defaults ≡ a)
unfolding meaning set_option get_option
set_option-parse_option types name t a o defaults h =
    ground (arith, parse_option-meaning types name)
