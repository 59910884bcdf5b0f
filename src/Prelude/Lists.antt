-- ===== src/Prelude/Lists.antt =====
-- Lists: tests that run, and membership as a test.
use mathlib.Core.Path.{◌≡◌, subst}
use mathlib.Core.Bool.{Bool, true, false, ◌&&◌, ◌||◌}
use mathlib.Core.Logic.{inl, inr}
use mathlib.Core.Option.{Option, none, some}
use mathlib.Core.List.{List, [], ◌∷◌}
use Prim.Native.Nat.{ℕ, suc}
use Prim.Native.String.{String}
use native.Mathlib.Omega.{arith}
use text.Mathlib.Text.{◌==◌}
use text.Mathlib.TextEquality.{eq_iff}
use authbyte.Prelude.Tests.{if◌then◌else◌, Bool-cases}

module _ {ℓ} {A : Type ℓ} where
  abbrev pub length : List A → ℕ
  length [] = 0
  length (x ∷ xs) = suc (length xs)

  abbrev pub is_empty : List A → Bool
  is_empty [] = true
  is_empty (x ∷ xs) = false

  abbrev pub all : (A → Bool) → List A → Bool
  all p [] = true
  all p (x ∷ xs) = p x && all p xs

  abbrev pub any : (A → Bool) → List A → Bool
  any p [] = false
  any p (x ∷ xs) = p x || any p xs

  -- The elements that pass, in order.
  abbrev pub keep : (A → Bool) → List A → List A
  keep p [] = []
  keep p (x ∷ xs) = let rest = keep p xs in if p x then x ∷ rest else rest

  -- The first element that passes.
  abbrev pub find : (A → Bool) → List A → Option A
  find p [] = none
  find p (x ∷ xs) = if p x then some x else find p xs

  abbrev pub All {κ} : (A → Type κ) → List A → Type κ
  All P [] = Unit
  All P (x ∷ xs) = P x × All P xs

  pub find-holds : (p : A → Bool) (xs : List A) (x : A) → find p xs ≡ some x → p x ≡ true
  find-holds p [] x h = ground arith
  find-holds p (y ∷ ys) x h = ground (arith, find-holds p ys x)

-- `slices.Contains`
abbrev pub contains : List String → String → Bool
contains [] a = false
contains (x ∷ xs) a = x == a || contains xs a

module _ (p : String → Bool) where
  -- What is kept passes, and was there.
  pub contains-keep :
      (xs : List String) (a : String)
      → contains (keep p xs) a ≡ true
      → (contains xs a ≡ true) × (p a ≡ true)
  contains-keep [] a h = ground arith
  contains-keep (x ∷ xs) a h = ground (arith, contains-keep xs a, eq_iff x a)

  -- What was there and passes is kept.
  pub keep-contains :
      (xs : List String) (a : String)
      → contains xs a ≡ true
      → p a ≡ true
      → contains (keep p xs) a ≡ true
  keep-contains [] a h k = ground arith
  keep-contains (x ∷ xs) a h k = ground (arith, keep-contains xs a, eq_iff x a)

-- A test that every text of a list passes, each one in it passes.
pub all-contains :
    (p : String → Bool) (xs : List String) (a : String)
    → all p xs ≡ true
    → contains xs a ≡ true
    → p a ≡ true
all-contains p [] a h k = ground (arith, k)
all-contains p (x ∷ xs) a h k = elim (Bool-cases (x == a)) [
  | inl same ↦ subst (λ z. p z ≡ true) ((eq_iff x a).0 same) (ground (arith, h))
  | inr other ↦ all-contains p xs a (ground (arith, h)) (ground (arith, k, other))
]
