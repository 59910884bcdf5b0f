-- ===== src/Identity/Resolver/Laws.antt =====
-- identity/identity.go: what a provider's claims resolve to does not depend on the order in which Go
-- ranges over a policy, and is the most specific key's value.
use Prim.Native.Char.{Char}
use authbyte.Prelude.{
  String, ◌≡◌, ◌≢◌, refl, sym, ap, ◌∙◌, true, false, ◌||◌, List, [], ◌∷◌, Option, none, some, Assoc,
  lookup, insert, lookup-insert, find-holds, contains, is_some, arith, eq_iff, Option-cases, inl,
  inr, eq_refl,
}
use authbyte.Text.{to_lower, contains_text, key_before, sort_keys}
use authbyte.Text.Order.{
  key_before_flip, sort_keys-IsSorted, contains-sort_keys, find_first, contains-find, find_none,
}
use authbyte.Identity.Resolver.{
  Resolver, value_of, lowered, lowered_keys, index_policy, haystack, match_key, value_or,
  match_policy, interpret, method_for, unless_empty, new_resolver_policies, default_loa_policy,
  default_method_policy, named,
}

cons-nil : {e : String × String} {m : Assoc String} → e ∷ m ≡ [] → ⊥
cons-nil h = ground arith

value_or_same :
    (m n : Assoc String) (default : String) (k : Option String)
    → ((j : String) → lookup m j ≡ lookup n j)
    → value_or m default k ≡ value_or n default k
value_or_same m n default none same = refl
value_or_same m n default (some k) same = ap value_of (same k)

abbrev pub or_default : String → Option String → String
or_default default none = default
or_default default (some method) = method

or_default_named :
    (policy : Assoc String) (default : String) (k : Option String)
    → or_default default (named policy k) ≡ value_or policy default k
or_default_named policy default none = refl
or_default_named policy default (some k) = refl

-- The two things that an answer resolves to, each by a policy of its own.
pub data Part : Type 0 where
  the_method the_level : Part

abbrev pub policy_of : Part → Resolver → Assoc String
policy_of the_method r = r.method_policy
policy_of the_level r = r.loa_policy

abbrev pub part_of : Part → String × String → String
part_of the_method m = m.0
part_of the_level m = m.1

module _ (lower : Char → Char) where
  lookup-lowered :
      (m policy : Assoc String) (k : String)
      → is_some (lookup (lowered lower m policy) k)
        ≡ (contains (lowered_keys lower policy) k || is_some (lookup m k))
  unfolding lowered lowered_keys
  lookup-lowered m [] k = refl
  lookup-lowered m ((j, v) ∷ rest) k = ground (
    arith,
    lookup-lowered (insert m (to_lower lower j) v) rest k,
    lookup-insert m (to_lower lower j) k v,
  )

  -- The keys of an indexed policy are the ones that its map has.
  keys_lookup :
      (policy : Assoc String) (k : String)
      → contains (index_policy lower policy).1 k ≡ is_some (lookup (index_policy lower policy).0 k)
  unfolding index_policy lookup
  keys_lookup policy k =
      ground (arith, lookup-lowered [] policy k, contains-sort_keys (lowered_keys lower policy) k)

  -- The key matched comes no later than any other key that the text contains.
  match_key_first :
      (policy : Assoc String) (hay k j : String)
      → match_key (index_policy lower policy).1 hay ≡ some k
      → is_some (lookup (index_policy lower policy).0 j) ≡ true
      → contains_text hay j ≡ true
      → key_before j k ≡ false
  unfolding match_key index_policy
  match_key_first policy hay k j e h c =
      find_first (λ i. contains_text hay i) (sort_keys (lowered_keys lower policy)) k j
        (sort_keys-IsSorted (lowered_keys lower policy)) e (keys_lookup policy j ∙ h) c

  match_key_found :
      (policy : Assoc String) (hay k : String)
      → match_key (index_policy lower policy).1 hay ≡ some k
      → (is_some (lookup (index_policy lower policy).0 k) ≡ true) × (contains_text hay k ≡ true)
  unfolding match_key
  match_key_found policy hay k e = (
    sym (keys_lookup policy k)
        ∙ contains-find (λ i. contains_text hay i) (index_policy lower policy).1 k e,
    find-holds (λ i. contains_text hay i) (index_policy lower policy).1 k e,
  )

  match_key_none :
      (policy : Assoc String) (hay j : String)
      → match_key (index_policy lower policy).1 hay ≡ none
      → is_some (lookup (index_policy lower policy).0 j) ≡ true
      → contains_text hay j ≡ false
  unfolding match_key
  match_key_none policy hay j e h =
      find_none (λ i. contains_text hay i) (index_policy lower policy).1 j e
        (keys_lookup policy j ∙ h)

  -- two policies that Go's map makes the same
  abbrev pub IsSame : Assoc String → Assoc String → Type 0
  IsSame p q = (k : String) → lookup (index_policy lower p).0 k ≡ lookup (index_policy lower q).0 k

  match_key_same :
      (p q : Assoc String) (hay : String)
      → IsSame p q
      → match_key (index_policy lower p).1 hay ≡ match_key (index_policy lower q).1 hay
  match_key_same p q hay same = elim (Option-cases (match_key (index_policy lower p).1 hay)) [
    | inl none_p ↦ elim (Option-cases (match_key (index_policy lower q).1 hay)) [
      | inl none_q ↦ none_p ∙ sym none_q
      | inr (k, found) ↦
          ground (arith, match_key_none p hay k none_p, match_key_found q hay k found, same k)
    ]
    | inr (k, found) ↦ elim (Option-cases (match_key (index_policy lower q).1 hay)) [
      | inl none_q ↦
          ground (arith, match_key_none q hay k none_q, match_key_found p hay k found, same k)
      | inr (j, other) ↦ ground (
        arith,
        match_key_found p hay k found,
        match_key_found q hay j other,
        match_key_first p hay k j found,
        match_key_first q hay j k other,
        key_before_flip j k,
        same k,
        same j,
      )
    ]
  ]

  IsSame-is_empty : (p q : Assoc String) → IsSame p q → (q ≡ []) → p ≡ []
  unfolding index_policy lowered_keys lowered lookup
  IsSame-is_empty [] q same e = refl
  IsSame-is_empty ((k, v) ∷ p) q same e = ground (
    arith,
    e,
    same (to_lower lower k),
    lookup-lowered [] ((k, v) ∷ p) (to_lower lower k),
    lookup-lowered [] [] (to_lower lower k),
    eq_refl (to_lower lower k),
  )

  IsSame-unless_empty :
      (default p q : Assoc String)
      → IsSame p q
      → IsSame (unless_empty default p) (unless_empty default q)
  IsSame-unless_empty default [] [] same = λ k. refl
  IsSame-unless_empty default [] (e ∷ q) same =
      absurd (cons-nil (IsSame-is_empty (e ∷ q) [] (λ k. sym (same k)) refl))
  IsSame-unless_empty default (e ∷ p) [] same =
      absurd (cons-nil (IsSame-is_empty (e ∷ p) [] same refl))
  IsSame-unless_empty default (d ∷ p) (e ∷ q) same = same

  match_policy_same :
      (p q : Assoc String) (default acr : String) (amr : List String)
      → IsSame p q
      → match_policy lower (index_policy lower p).1 (index_policy lower p).0 default acr amr
        ≡ match_policy lower (index_policy lower q).1 (index_policy lower q).0 default acr amr
  unfolding match_policy
  match_policy_same p q default acr amr same =
      let hay = haystack lower (to_lower lower acr) amr in
      rw (match_key_same p q hay same) (
        value_or_same (index_policy lower p).0 (index_policy lower q).0 default
          (match_key (index_policy lower q).1 hay) same)

  -- Two configurations whose policies are the same maps once their keys are in lower case resolve
  -- every answer to the same sign-in method and level, whatever order Go ranges over them in.
  pub interpret_same :
      (levels levels' methods methods' : Assoc String) (method_default loa_default acr : String)
      (amr : List String)
      → IsSame levels levels'
      → IsSame methods methods'
      → interpret lower
          (new_resolver_policies lower levels methods method_default loa_default)
          acr
          amr
        ≡ interpret lower
            (new_resolver_policies lower levels' methods' method_default loa_default)
            acr
            amr
  unfolding interpret new_resolver_policies
  interpret_same levels levels' methods methods' method_default loa_default acr amr same same' =
      rw
        (
          match_policy_same (unless_empty default_loa_policy levels)
              (unless_empty default_loa_policy levels') _ acr amr
              (IsSame-unless_empty default_loa_policy levels levels' same),
          match_policy_same (unless_empty default_method_policy methods)
              (unless_empty default_method_policy methods') _ acr amr
              (IsSame-unless_empty default_method_policy methods methods' same'),
        )
        refl

  match_policy_specific :
      (policy : Assoc String) (default acr : String) (amr : List String) (k : String)
      → is_some (lookup (index_policy lower policy).0 k) ≡ true
      → contains_text (haystack lower (to_lower lower acr) amr) k ≡ true
      → (j : String) × (contains_text (haystack lower (to_lower lower acr) amr) j ≡ true)
        × (lookup (index_policy lower policy).0 j
            ≡ some (
                match_policy lower
                  (index_policy lower policy).1
                  (index_policy lower policy).0
                  default
                  acr
                  amr))
        × (key_before k j ≡ false)
  unfolding match_policy
  match_policy_specific policy default acr amr k known there =
      let hay = haystack lower (to_lower lower acr) amr in
      elim (Option-cases (match_key (index_policy lower policy).1 hay)) [
        | inl nothing ↦ absurd (ground (arith, match_key_none policy hay k nothing))
        | inr (j, found) ↦ (
          j,
          (match_key_found policy hay j found).1,
          ground (arith, match_key_found policy hay j found),
          match_key_first policy hay j k found known there,
        )
      ]

  -- An answer that contains a key of the methods' policy, or of the levels', resolves to the method,
  -- or the level, of a key of that policy that it contains and that the first one is not more
  -- specific than: neither longer, nor of that length and first in the alphabet.
  pub interpret_specific :
      (part : Part) (levels methods : Assoc String) (method_default loa_default acr : String)
      (amr : List String) (k : String)
      → let r = new_resolver_policies lower levels methods method_default loa_default in
        let hay = haystack lower (to_lower lower acr) amr in
        is_some (lookup (policy_of part r) k) ≡ true
        → contains_text hay k ≡ true
        → (j : String) × (contains_text hay j ≡ true)
          × (lookup (policy_of part r) j ≡ some (part_of part (interpret lower r acr amr)))
          × (key_before k j ≡ false)
  unfolding interpret new_resolver_policies
  interpret_specific the_method levels methods method_default loa_default acr amr k h c =
      match_policy_specific (unless_empty default_method_policy methods) _ acr amr k h c
  interpret_specific the_level levels methods method_default loa_default acr amr k h c =
      match_policy_specific (unless_empty default_loa_policy levels) _ acr amr k h c

  -- A requested value in which the vocabulary knows a method names the method that a provider's
  -- answer of the same value resolves to; where it names none, and is not empty, such an answer
  -- resolves to the default.
  pub method_for-interpret :
      (r : Resolver) (acr : String)
      → to_lower lower acr ≢ ""
      → (interpret lower r acr []).0 ≡ or_default r.method_default (method_for lower r acr)
  unfolding interpret method_for match_policy haystack
  method_for-interpret r acr h = ground (
    arith,
    h,
    eq_iff (to_lower lower acr) "",
    or_default_named r.method_policy r.method_default
        (match_key r.method_keys (to_lower lower acr)),
  )
