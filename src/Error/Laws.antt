-- ===== src/Error/Laws.antt =====
-- Theorems on messages and on the collection of errors.
use binary_reader.Common.{
  ℕ, List, [], ◌∷◌, ◌++◌, Bool, false, ◌||◌, ◌==◌, if◌then◌else◌, ◌≡◌, refl, arith, ◌⊎◌, inl, inr,
  true, Bool-cases, subst, sym,
}
use binary_reader.Error.Defs.{
  ErrorKind, ErrorInfo, kind_code, unknown, cannot_open, io_error, shadowing_type, shadowing_member,
  unknown_type, no_types, option_must_be_string, option_must_be_string_typed, unknown_option_value,
  unknown_option_value_typed, ambiguous_option, duplicate_option, option_invalid_for_type,
  unknown_option_type, unexpected_end_of_stream, little_endian_align, fields_must_be_static,
}
use binary_reader.Error.Message.{
  MessageInfo, unknown_message, default_messages, default_error_message, find_message, c_str,
}
use binary_reader.Error.Collection.{ErrorCollection, add, add_all_from, is_error}

abbrev next : List (List ℕ) → List ℕ
next [] = []
next (a ∷ args) = a

abbrev others : List (List ℕ) → List (List ℕ)
others [] = []
others (a ∷ args) = args

-- Each `%s` of a format replaced by the next argument, or by nothing when none is left.
unfoldable pub render : List ℕ → List (List ℕ) → List ℕ
render [] args = []
render (c ∷ []) args = c ∷ []
render (c ∷ d ∷ rest) args =
    let replaced = c_str (next args) ++ render rest (others args) in
    let copied = c ∷ render (d ∷ rest) args in if c == b'%' then replaced else copied

-- The entry is one of the table's.
abbrev pub IsEntry : MessageInfo → List MessageInfo → Type 0
IsEntry m [] = ⊥
IsEntry m (n ∷ ns) = (m ≡ n) ⊎ IsEntry m ns

format_message-render :
    (kind : ErrorKind) (args : List (List ℕ))
    → default_error_message kind args ≡ render (find_message kind default_messages).format args
unfolding default_error_message render
format_message-render unknown args = refl
format_message-render _ [] = refl
format_message-render _ (a ∷ []) = refl
format_message-render _ (a ∷ b ∷ args) = refl

kind_found : (kind : ErrorKind) → (find_message kind default_messages).kind ≡ kind
unfolding find_message default_messages kind_code
kind_found unknown = refl
kind_found cannot_open = refl
kind_found io_error = refl
kind_found shadowing_type = refl
kind_found shadowing_member = refl
kind_found unknown_type = refl
kind_found no_types = refl
kind_found option_must_be_string = refl
kind_found option_must_be_string_typed = refl
kind_found unknown_option_value = refl
kind_found unknown_option_value_typed = refl
kind_found ambiguous_option = refl
kind_found duplicate_option = refl
kind_found option_invalid_for_type = refl
kind_found unknown_option_type = refl
kind_found unexpected_end_of_stream = refl
kind_found little_endian_align = refl
kind_found fields_must_be_static = refl

find_message-found :
    (kind : ErrorKind) (m : MessageInfo) (ms : List MessageInfo)
    → (kind_code m.kind == kind_code kind) ≡ true
    → find_message kind (m ∷ ms) ≡ m
unfolding find_message
find_message-found kind m ms h = rw h refl

find_message-next :
    (kind : ErrorKind) (m : MessageInfo) (ms : List MessageInfo)
    → (kind_code m.kind == kind_code kind) ≡ false
    → find_message kind (m ∷ ms) ≡ find_message kind ms
unfolding find_message
find_message-next kind m ms h = rw h refl

find_message-IsEntry :
    (kind : ErrorKind) (ms : List MessageInfo)
    → IsEntry (find_message kind ms) (unknown_message ∷ ms)
find_message-IsEntry kind [] = unfold find_message in inl refl
find_message-IsEntry kind (m ∷ ms) = elim (Bool-cases (kind_code m.kind == kind_code kind)) [
  | inl same ↦ inr (inl (find_message-found kind m ms same))
  | inr other ↦
      subst (λ f. IsEntry f (unknown_message ∷ m ∷ ms)) (sym (find_message-next kind m ms other))
        (elim (find_message-IsEntry kind ms) [
          | inl first ↦ inl first
          | inr later ↦ inr (inr later)
        ])
]

table-IsEntry :
    (m : MessageInfo) → IsEntry m (unknown_message ∷ default_messages) → IsEntry m default_messages
unfolding default_messages unknown_message
table-IsEntry m (inl first) = inl first
table-IsEntry m (inr there) = there

-- The message of any kind is the entry of the table that has that kind, with the arguments in place of
-- the `%s`: arguments in excess are dropped, missing ones are empty, and no kind gives the internal
-- error.
pub default_error_message-eq-render :
    (kind : ErrorKind) (args : List (List ℕ))
    → (m : MessageInfo) × IsEntry m default_messages
      × (m.kind ≡ kind)
      × (default_error_message kind args ≡ render m.format args)
default_error_message-eq-render kind args = (
  find_message kind default_messages,
  table-IsEntry _ (find_message-IsEntry kind default_messages),
  kind_found kind,
  format_message-render kind args,
)

abbrev any_error : List ErrorInfo → Bool
any_error [] = false
any_error (e ∷ es) = is_error e.level || any_error es

any_error-append : (xs ys : List ErrorInfo) → any_error (xs ++ ys) ≡ (any_error xs || any_error ys)
any_error-append [] ys = refl
any_error-append (x ∷ xs) ys = ground (arith, any_error-append xs ys)

-- The flag says whether some error of the collection has the level `error`.
abbrev pub IsConsistent : ErrorCollection → Type 0
IsConsistent c = c.has_error ≡ any_error c.errors

-- `Add` keeps the flag of a consistent collection true to its errors.
pub add-IsConsistent :
    (c : ErrorCollection) (e : ErrorInfo) → IsConsistent c → IsConsistent (add c e)
unfolding add
add-IsConsistent c e h = ground (arith, any_error-append c.errors (e ∷ []))

-- `AddAllFrom` of two consistent collections gives a consistent one.
pub add_all_from-IsConsistent :
    (c d : ErrorCollection) → IsConsistent c → IsConsistent d → IsConsistent (add_all_from c d)
unfolding add_all_from
add_all_from-IsConsistent c d hc hd = ground (arith, any_error-append c.errors d.errors)
