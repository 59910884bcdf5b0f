-- ===== src/Text/Order.antt =====
-- Texts in the order of their bytes, and keys sorted by length and then in that order.

use Prim.Native.String.{compare}
use Prim.Native.String.compare as comparing
use text.Mathlib.Text.{is_lt}
use text.Mathlib.TextEquality.{codes_equal, eq_iff}
use authbyte.Prelude.{
  String, ◌≡◌, refl, Bool, true, false, not, ◌&&◌, ◌||◌, List, [], ◌∷◌, arith, contains, all, none,
  some, find, ◌==◌, Bool-cases, inl, inr,
}
use authbyte.Text.{key_before, place, sort_keys}

-- Of two texts, one comes first or they are the same.
compare_flip : (a b : String) → is_lt (compare a b) ≡ false → is_lt (compare b a) ≡ false → a ≡ b
compare_flip String.[] String.[] h k = refl
compare_flip String.[] (String.◌∷◌ d t) h k = ground (arith, comparing.nil-cons d t)
compare_flip (String.◌∷◌ c s) String.[] h k = ground (arith, comparing.nil-cons c s)
compare_flip (String.◌∷◌ c s) (String.◌∷◌ d t) h k = ground (
  arith,
  compare_flip s t,
  comparing.cons-cons c d s t,
  comparing.cons-cons d c t s,
  codes_equal c d,
)

compare_trans :
    (a b c : String)
    → is_lt (compare b a) ≡ false
    → is_lt (compare c b) ≡ false
    → is_lt (compare c a) ≡ false
compare_trans String.[] b String.[] h k = ground arith
compare_trans String.[] b (String.◌∷◌ z u) h k = ground (arith, comparing.cons-nil z u)
compare_trans (String.◌∷◌ x s) String.[] c h k = ground (arith, comparing.nil-cons x s)
compare_trans (String.◌∷◌ x s) (String.◌∷◌ y t) String.[] h k =
    ground (arith, comparing.nil-cons y t)
compare_trans (String.◌∷◌ x s) (String.◌∷◌ y t) (String.◌∷◌ z u) h k = ground (
  arith,
  compare_trans s t u,
  comparing.cons-cons y x t s,
  comparing.cons-cons z y u t,
  comparing.cons-cons z x u s,
)

pub key_before_flip : (a b : String) → key_before a b ≡ false → key_before b a ≡ false → a ≡ b
unfolding key_before
key_before_flip a b h k = ground (arith, compare_flip a b)

-- What comes no earlier than b, which comes no earlier than a, comes no earlier than a.
pub key_before_trans :
    (a b c : String) → key_before b a ≡ false → key_before c b ≡ false → key_before c a ≡ false
unfolding key_before
key_before_trans a b c h k = ground (arith, compare_trans a b c)

compare_asym : (a b : String) → is_lt (compare b a) ≡ true → is_lt (compare a b) ≡ false
compare_asym String.[] String.[] h = ground arith
compare_asym String.[] (String.◌∷◌ d t) h = ground (arith, comparing.cons-nil d t)
compare_asym (String.◌∷◌ c s) String.[] h = ground (arith, comparing.cons-nil c s)
compare_asym (String.◌∷◌ c s) (String.◌∷◌ d t) h =
    ground (arith, compare_asym s t, comparing.cons-cons c d s t, comparing.cons-cons d c t s)

pub key_before_asym : (a b : String) → key_before b a ≡ true → key_before a b ≡ false
unfolding key_before
key_before_asym a b h = ground (arith, compare_asym a b)

key_before_refl : (a : String) → key_before a a ≡ false
key_before_refl a = elim (Bool-cases (key_before a a)) [
  | inl before ↦ key_before_asym a a before
  | inr apart ↦ apart
]

-- each key comes no earlier than the ones in front of it
abbrev IsSorted : List String → Type 0
IsSorted [] = Unit
IsSorted (a ∷ rest) = (all (λ b. not (key_before b a)) rest ≡ true) × IsSorted rest

abbrev not_before : String → String → Bool
not_before a b = not (key_before b a)

all-not_before_trans :
    (a b : String) (rest : List String)
    → key_before b a ≡ false
    → all (not_before b) rest ≡ true
    → all (not_before a) rest ≡ true
all-not_before_trans a b [] h k = refl
all-not_before_trans a b (c ∷ rest) h k =
    ground (arith, all-not_before_trans a b rest, key_before_trans a b c)

all-place :
    (p : String → Bool) (a : String) (bs : List String) → all p (place a bs) ≡ (p a && all p bs)
unfolding place
all-place p a [] = refl
all-place p a (b ∷ bs) = ground (arith, all-place p a bs)

place-IsSorted : (a : String) (bs : List String) → IsSorted bs → IsSorted (place a bs)
unfolding place
place-IsSorted a [] h = (refl, tt)
place-IsSorted a (b ∷ bs) h = ground (
  arith,
  place-IsSorted a bs,
  all-place (not_before b) a bs,
  all-not_before_trans a b bs,
  key_before_asym a b,
)

pub sort_keys-IsSorted : (keys : List String) → IsSorted (sort_keys keys)
unfolding sort_keys
sort_keys-IsSorted [] = tt
sort_keys-IsSorted (a ∷ rest) = place-IsSorted a (sort_keys rest) (sort_keys-IsSorted rest)

contains-place :
    (a : String) (bs : List String) (x : String)
    → contains (place a bs) x ≡ (a == x || contains bs x)
unfolding place
contains-place a [] x = refl
contains-place a (b ∷ bs) x = ground (arith, contains-place a bs x)

pub contains-sort_keys :
    (keys : List String) (x : String) → contains (sort_keys keys) x ≡ contains keys x
unfolding sort_keys
contains-sort_keys [] x = refl
contains-sort_keys (a ∷ rest) x =
    ground (arith, contains-place a (sort_keys rest) x, contains-sort_keys rest x)

all-contains :
    (p : String → Bool) (keys : List String) (x : String)
    → all p keys ≡ true
    → contains keys x ≡ true
    → p x ≡ true
all-contains p [] x h k = ground arith
all-contains p (a ∷ rest) x h k = ground (arith, all-contains p rest x, eq_iff a x)

-- The first key that passes comes no later than any other that passes.
pub find_first :
    (p : String → Bool) (keys : List String) (k j : String)
    → IsSorted keys
    → find p keys ≡ some k
    → contains keys j ≡ true
    → p j ≡ true
    → key_before j k ≡ false
find_first p [] k j h e c q = ground arith
find_first p (a ∷ rest) k j h e c q = ground (
  arith,
  find_first p rest k j,
  all-contains (not_before a) rest j,
  eq_iff a j,
  key_before_refl a,
)

pub contains-find :
    (p : String → Bool) (keys : List String) (k : String)
    → find p keys ≡ some k
    → contains keys k ≡ true
contains-find p [] k e = ground arith
contains-find p (a ∷ rest) k e = ground (arith, contains-find p rest k, eq_iff a k)

pub find_none :
    (p : String → Bool) (keys : List String) (j : String)
    → find p keys ≡ none
    → contains keys j ≡ true
    → p j ≡ false
find_none p [] j e c = ground arith
find_none p (a ∷ rest) j e c = ground (arith, find_none p rest j, eq_iff a j)
