-- ===== src/Integer/Last.antt =====
-- The last byte of an integer that does not end with it: which of its bits `ReadValue` takes.
use binary_reader.Common.{
  ℕ, zero, suc, ◌-◌, ◌*◌, ◌^◌, ◌<◌, ◌≡◌, ◌↔◌, refl, sym, ap, ◌∙◌, arith, bit_or, bit_or_field, u64,
  ◌>>>◌, ◌<<<◌, not, ◌==◌, ◌&&◌, true,
}
use binary_reader.Integer.{last_bits}
use binary_reader.Integer.Bytes.{IsByte}
use native.Mathlib.Nat.{one-le-pow}

last_bits_zero :
    (f count byte : ℕ) → 0 < f → 1 < count → IsByte byte → last_bits f count 0 byte ≡ byte >>> f
unfolding last_bits
last_bits_zero f count byte some many lt =
    let go : (not (f == 0) && not (count == 1)) ≡ true = ground arith in
    let small : byte >>> f < 2 ^ 8 = ground (arith, one-le-pow f 2) in
    let none : u64 (0 <<< f) ≡ 0 * 2 ^ 8 = omega arith in
    rw go (
      ap (λ (x : ℕ). bit_or x (byte >>> f)) none
      ∙ bit_or_field 8 0 (byte >>> f) small
      ∙ omega arith)

shifts_differ : (f : ℕ) → 0 < f → f < 8 → 128 >>> f ≡ 128 >>> (8 - f) → f ≡ 4
shifts_differ (suc zero) _ _ h = absurd (omega arith)
shifts_differ (suc (suc zero)) _ _ h = absurd (omega arith)
shifts_differ (suc (suc (suc zero))) _ _ h = absurd (omega arith)
shifts_differ (suc (suc (suc (suc zero)))) _ _ h = refl
shifts_differ (suc (suc (suc (suc (suc zero))))) _ _ h = absurd (omega arith)
shifts_differ (suc (suc (suc (suc (suc (suc zero)))))) _ _ h = absurd (omega arith)
shifts_differ (suc (suc (suc (suc (suc (suc (suc zero))))))) _ _ h = absurd (omega arith)
shifts_differ zero some _ h = absurd (omega arith)
shifts_differ (suc (suc (suc (suc (suc (suc (suc (suc n)))))))) _ lt h = absurd (omega arith)

-- Where the integer ends `f` bits into its last byte, 0 < f < 8, and touches more than one byte, the
-- bits that are taken from every last byte are its first `f` only if f is 4; then they are.
pub last_bits-eq_iff :
    (f count : ℕ)
    → 0 < f
    → f < 8
    → 1 < count
    → ((byte : ℕ) → IsByte byte → last_bits f count 0 byte ≡ byte >>> (8 - f)) ↔ (f ≡ 4)
last_bits-eq_iff f count some few many = (
  (λ all.
      shifts_differ f some few
        (sym (last_bits_zero f count 128 some many (omega arith)) ∙ all 128 (omega arith))),
  λ four byte lt. rw four (last_bits_zero 4 count byte (omega arith) many lt),
)
