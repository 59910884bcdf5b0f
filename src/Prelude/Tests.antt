-- ===== src/Prelude/Tests.antt =====
-- Boolean tests, branching, and splits on a computed value that keep its equation.
use Prim.Native.Nat.{ℕ, compare, Ordering}
use Prim.Native.String.{String}
use mathlib.Core.Path.{◌≡◌, refl, sym}
use mathlib.Core.Bool.{Bool, true, false, not}
use mathlib.Core.Logic.{◌⊎◌, inl, inr}
use mathlib.Core.Option.{Option, none, some}
use text.Mathlib.Text.{◌==◌}
use text.Mathlib.TextEquality.{eq_iff}

abbrev pub ltb : ℕ → ℕ → Bool
ltb a b = elim (compare a b) [ Ordering.lt ↦ true | _ ↦ false ]

abbrev pub leb : ℕ → ℕ → Bool
leb a b = elim (compare a b) [ Ordering.gt ↦ false | _ ↦ true ]

infix 1 if◌then◌else◌
abbrev pub if◌then◌else◌ {ℓ} : {A : Type ℓ} → Bool → A → A → A
if true then x else y = x
if false then x else y = y

pub Bool-cases : (b : Bool) → (b ≡ true) ⊎ (b ≡ false)
Bool-cases true = inl refl
Bool-cases false = inr refl

-- A test that the code's guard does not refuse holds.
pub unrefused : (b : Bool) → not b ≡ false → b ≡ true
unrefused true h = refl
unrefused false h = sym h

pub Option-cases {ℓ} : {A : Type ℓ} (o : Option A) → (o ≡ none) ⊎ ((a : A) × (o ≡ some a))
Option-cases none = inl refl
Option-cases (some a) = inr (a, refl)

-- Two texts that test equal are equal.
pub ==→eq : (a b : String) → (a == b) ≡ true → a ≡ b
==→eq a b h = (eq_iff a b).0 h

abbrev pub is_some {ℓ} : {A : Type ℓ} → Option A → Bool
is_some none = false
is_some (some a) = true

-- What a fallible call answers.
pub data Result {ℓ κ} (E : Type ℓ) (A : Type κ) : Type (ℓ ⊔ κ) where
  ok : A → Result E A
  err : E → Result E A

infixl 5 ◌>>=◌
abbrev pub ◌>>=◌ {ℓ κ μ} :
    {E : Type ℓ} {A : Type κ} {B : Type μ} → Result E A → (A → Result E B) → Result E B
ok a >>= f = f a
err e >>= f = err e

module _ {ℓ κ μ} {E : Type ℓ} {A : Type κ} {B : Type μ} where
  -- A chain of calls that answered: the first one did, and so did the others on its answer.
  pub >>=-eq-ok :
      (call : Result E A) (others : A → Result E B) {answer : B}
      → (call >>= others) ≡ ok answer
      → (first : A) × (call ≡ ok first) × (others first ≡ ok answer)
  >>=-eq-ok (err refusal) others ran = cc
  >>=-eq-ok (ok first) others ran = (first, refl, ran)

module _ {ℓ κ} {E : Type ℓ} {A : Type κ} where
  -- A call behind a refusal that answered: the refusal did not hold, and the rest answered.
  pub if-eq-ok :
      (b : Bool) (refusal : E) (call : Result E A) {answer : A}
      → (if b then err refusal else call) ≡ ok answer
      → (b ≡ false) × (call ≡ ok answer)
  if-eq-ok true refusal call ran = cc
  if-eq-ok false refusal call ran = (refl, ran)
