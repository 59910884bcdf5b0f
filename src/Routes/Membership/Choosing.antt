-- ===== src/Routes/Membership/Choosing.antt =====
-- Which membership a token is minted for.
use authbyte.Prelude.{
  String, ◌≡◌, ◌≢◌, ◌⊎◌, inl, inr, refl, Bool, true, List, [], ◌∷◌, some, contains, find, ◌==◌,
  eq_iff, arith, contains-keep, keep-contains, Option-cases, Bool-cases, ◌↔◌,
}
use authbyte.Register.{Membership}
use authbyte.Routes.Membership.{
  MembershipOutcome, choose_membership, outcome_of, tenants_of, intersect_scopes,
}

-- A scope is in the intersection exactly when both lists have it.
pub contains-intersect_scopes :
    (allowed granted : List String) (s : String)
    → (contains (intersect_scopes allowed granted) s ≡ true)
      ↔ ((contains allowed s ≡ true) × (contains granted s ≡ true))
unfolding intersect_scopes
contains-intersect_scopes allowed granted s = (
  λ h. contains-keep (λ (x : String). contains granted x) allowed s h,
  λ h. keep-contains (λ (x : String). contains granted x) allowed s h.0 h.1,
)

-- A membership that is one of a list's.
abbrev pub Holds : List Membership → Membership → Type 0
Holds [] m = ⊥
Holds (x ∷ ms) m = (x ≡ m) ⊎ Holds ms m

-- What a token may carry for a person who holds `ms` and named `hint`: one membership they hold,
-- the one they named or their only one, whole; or nothing but the choice among several.
abbrev pub IsOutcome : List Membership → String → MembershipOutcome → Type 0
IsOutcome ms hint o =
    ((m : Membership) × Holds ms m
      × (o.scopes ≡ m.scopes)
      × (o.tenant ≡ m.tenant_id)
      × (o.choices ≡ [])
      × (((hint ≢ "") × (m.tenant_id ≡ hint)) ⊎ ((hint ≡ "") × (ms ≡ m ∷ []))))
    ⊎ ((a b : Membership) × (rest : List Membership) × (ms ≡ a ∷ b ∷ rest)
        × (hint ≡ "")
        × (o.scopes ≡ [])
        × (o.tenant ≡ "")
        × (o.choices ≡ tenants_of ms))

pub find-Holds :
    (p : Membership → Bool) (ms : List Membership) (m : Membership)
    → find p ms ≡ some m
    → Holds ms m × (p m ≡ true)
find-Holds p [] m h = absurd (ground arith)
find-Holds p (x ∷ ms) m h = elim (Bool-cases (p x)) [
  | inl hit ↦ (inl (ground (arith, hit)), ground (arith, hit))
  | inr miss ↦ let (there, passes) = find-Holds p ms m (ground (arith, miss)) in (inr there, passes)
]

named-IsOutcome :
    (ms : List Membership) (hint : String) (o : MembershipOutcome)
    → hint ≢ ""
    → outcome_of ms hint (choose_membership ms hint) ≡ some o
    → IsOutcome ms hint o
unfolding outcome_of choose_membership
named-IsOutcome ms hint o named h = elim (Option-cases (find (λ m. m.tenant_id == hint) ms)) [
  | inl nowhere ↦ absurd (ground (arith, nowhere, named, eq_iff hint ""))
  | inr (m, there) ↦
      let (held, same) = find-Holds (λ m. m.tenant_id == hint) ms m there in
      inl (
        m,
        held,
        ground (arith, there, named, eq_iff hint ""),
        ground (arith, there, named, eq_iff hint ""),
        ground (arith, there, named, eq_iff hint ""),
        inl (named, (eq_iff m.tenant_id hint).0 same),
      )
]

unnamed-IsOutcome :
    (ms : List Membership) (o : MembershipOutcome)
    → outcome_of ms "" (choose_membership ms "") ≡ some o
    → IsOutcome ms "" o
unfolding outcome_of choose_membership
unnamed-IsOutcome [] o h = absurd (ground arith)
unnamed-IsOutcome (m ∷ []) o h =
    inl (m, inl refl, ground arith, ground arith, ground arith, inr (refl, refl))
unnamed-IsOutcome (a ∷ b ∷ rest) o h =
    inr (a, b, rest, refl, refl, ground arith, ground arith, ground arith)

-- What is chosen of the memberships a person holds is what a token may carry: the named
-- membership, or the only one, whole, and of several with none named no scope and no tenant.
pub outcome_of-IsOutcome :
    (ms : List Membership) (hint : String) (o : MembershipOutcome)
    → outcome_of ms hint (choose_membership ms hint) ≡ some o
    → IsOutcome ms hint o
outcome_of-IsOutcome ms hint o h = elim (Bool-cases (hint == "")) [
  | inl none_named ↦
      let empty : hint ≡ "" = (eq_iff hint "").0 none_named in
      rw empty (unnamed-IsOutcome ms o (rw empty at h))
  | inr named ↦ named-IsOutcome ms hint o (λ e. ground (arith, named, eq_iff hint "")) h
]
