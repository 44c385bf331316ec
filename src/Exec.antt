-- ===== src/Exec.antt =====
-- A call that may fail: a C++ function that returns `bool` and takes an `ErrorCollection*`, on a
-- state that it changes also when it fails. What it writes through its other pointers on success is
-- the value of `ok`. `stuck` is the model's own: a loop ran out of fuel, a null
-- pointer is followed, or an exception is thrown that nothing catches.
use binary_reader.Common.{◌≡◌, refl, ap, ◌∙◌, subst, ◌⊎◌, inl, inr}
use binary_reader.Error.Collection.{ErrorCollection}

pub data Outcome {ℓ} (A : Type ℓ) : Type ℓ where
  ok : A → Outcome A
  failed stuck : Outcome A

pub record Done (S A : Type 0) : Type 0 where
  pub outcome : Outcome A
  pub state : S
  pub errors : ErrorCollection

abbrev pub Exec : Type 0 → Type 0 → Type 0
Exec S A = S → ErrorCollection → Done S A

abbrev pub done : {S A : Type 0} → Outcome A → S → ErrorCollection → Done S A
done o s e = record { outcome = o; state = s; errors = e }

abbrev pub return : {S A : Type 0} → A → Exec S A
return a s e = done (ok a) s e

abbrev pub fail_with : {S A : Type 0} → (ErrorCollection → ErrorCollection) → Exec S A
fail_with f s e = done failed s (f e)

abbrev pub continue : {S A B : Type 0} → Outcome A → S → ErrorCollection → (A → Exec S B) → Done S B
continue (ok a) s e f = f a s e
continue failed s e f = done failed s e
continue stuck s e f = done stuck s e

infixl 5 ◌>>=◌ ◌>>◌
abbrev pub ◌>>=◌ : {S A B : Type 0} → Exec S A → (A → Exec S B) → Exec S B
◌>>=◌ m f s e = let r = m s e in continue r.outcome r.state r.errors f

abbrev pub ◌>>◌ : {S B : Type 0} → Exec S (Unit {0}) → Exec S B → Exec S B
m >> k = m >>= λ _. k

abbrev pub get_state : {S : Type 0} → Exec S S
get_state s e = done (ok s) s e

abbrev pub put_state : {S : Type 0} → S → Exec S (Unit {0})
put_state s' s e = done (ok tt) s' e

-- The call comes to an end, and what it gives where it succeeds satisfies `P`.
abbrev pub Ensures : {A : Type 0} → Outcome A → (A → Type 0) → Type 0
Ensures (ok a) P = P a
Ensures failed P = Unit {0}
Ensures stuck P = ⊥

pub Outcome-cases :
    {A : Type 0} (o : Outcome A) → ((a : A) × (o ≡ ok a)) ⊎ ((o ≡ failed) ⊎ (o ≡ stuck))
Outcome-cases (ok a) = inl (a, refl)
Outcome-cases failed = inr (inl refl)
Outcome-cases stuck = inr (inr refl)

-- What a call ensures gives what follows from it.
pub Ensures-map :
    {A : Type 0} {P Q : A → Type 0} (o : Outcome A)
    → ((a : A) → P a → Q a)
    → Ensures o P
    → Ensures o Q
Ensures-map (ok a) f h = f a h
Ensures-map failed f h = tt
Ensures-map stuck f h = absurd h

-- A chain of calls ends as its parts do.
pub Ensures-bind :
    {S A B : Type 0} {P : A → Type 0} (Q : B → Done S B → Type 0) (r : Done S A) (f : A → Exec S B)
    → Ensures r.outcome P
    → ((a : A) → P a → Ensures (f a r.state r.errors).outcome (λ b. Q b (f a r.state r.errors)))
    → Ensures
        (continue r.outcome r.state r.errors f).outcome
        (λ b. Q b (continue r.outcome r.state r.errors f))
Ensures-bind {P = P} Q r f h k = elim (Outcome-cases r.outcome) [
  | inl (a, e) ↦ rw e (k a (subst (λ o. Ensures o P) e h))
  | inr (inl e) ↦ rw e tt
  | inr (inr e) ↦ absurd (subst (λ o. Ensures o P) e h)
]

pub Ensures-both :
    {A : Type 0} (P Q : A → Type 0) (o : Outcome A)
    → Ensures o P
    → Ensures o Q
    → Ensures o (λ a. P a × Q a)
Ensures-both P Q (ok a) p q = (p, q)
Ensures-both P Q failed p q = tt
Ensures-both P Q stuck p q = p

-- A chain whose first call succeeds goes on from what that leaves.
pub bind_ok :
    {S A B : Type 0} (m : Exec S A) (f : A → Exec S B) (s : S) (e : ErrorCollection) {a : A}
    {s' : S} {e' : ErrorCollection} {r : Done S B}
    → m s e ≡ done (ok a) s' e'
    → f a s' e' ≡ r
    → (m >>= f) s e ≡ r
bind_ok m f s e h k = ap (λ q. continue q.outcome q.state q.errors f) h ∙ k
