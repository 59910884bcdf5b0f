-- ===== src/Session/Shared/Laws.antt =====
-- Keeping a way: one entry for each method, the latest last, and the end of the last way.
use authbyte.Prelude.{
  ℕ, ◌≤◌, String, ◌≡◌, refl, Bool, false, List, [], ◌∷◌, ◌++◌, any, All, ltb, ◌==◌, eq_iff, arith,
  if◌then◌else◌,
}
use authbyte.Session.Shared.{Way, Shared, keep, latest_end, other_ways}

abbrev uses : String → List Way → Bool
uses m ways = any (λ o. o.way_method == m) ways

-- No two entries are by one method.
abbrev pub DistinctMethods : List Way → Type 0
DistinctMethods [] = Unit {0}
DistinctMethods (w ∷ ways) = (uses w.way_method ways ≡ false) × DistinctMethods ways

-- Every entry ends by a time.
abbrev pub EndsBy : ℕ → List Way → Type 0
EndsBy t ways = All (λ w. w.ends ≤ t) ways

uses-other_ways_self : (w : Way) (ways : List Way) → uses w.way_method (other_ways w ways) ≡ false
uses-other_ways_self w [] = refl
uses-other_ways_self w (o ∷ ways) = ground (arith, uses-other_ways_self w ways)

uses-other_ways :
    (w : Way) (ways : List Way) (m : String)
    → uses m ways ≡ false
    → uses m (other_ways w ways) ≡ false
uses-other_ways w [] m h = refl
uses-other_ways w (o ∷ ways) m h = ground (arith, uses-other_ways w ways m)

uses-append :
    (m : String) (ways : List Way) (w : Way)
    → uses m ways ≡ false
    → (w.way_method == m) ≡ false
    → uses m (ways ++ w ∷ []) ≡ false
uses-append m [] w h k = ground arith
uses-append m (o ∷ ways) w h k = ground (arith, uses-append m ways w)

keep-DistinctMethods :
    (w : Way) (ways : List Way)
    → DistinctMethods ways
    → DistinctMethods (other_ways w ways ++ w ∷ [])
keep-DistinctMethods w [] h = (refl, tt)
keep-DistinctMethods w (o ∷ ways) h = ground (
  arith,
  keep-DistinctMethods w ways h.1,
  eq_iff o.way_method w.way_method,
  eq_iff w.way_method o.way_method,
  uses-append o.way_method (other_ways w ways) w (uses-other_ways w ways o.way_method h.0),
)

latest_end-ge :
    (t : ℕ) (ways : List Way) → (t ≤ latest_end t ways) × EndsBy (latest_end t ways) ways
unfolding latest_end
latest_end-ge t [] = (omega arith, tt)
latest_end-ge t (o ∷ ways) =
    let (above, all) = latest_end-ge (if ltb t o.ends then o.ends else t) ways in
    (ground arith, (ground arith, all))

latest_end-least :
    (t bound : ℕ) (ways : List Way) → t ≤ bound → EndsBy bound ways → latest_end t ways ≤ bound
unfolding latest_end
latest_end-least t bound [] h k = h
latest_end-least t bound (o ∷ ways) h k =
    latest_end-least (if ltb t o.ends then o.ends else t) bound ways (ground arith) k.1

-- A shared session holds one entry for each method, and none outlives it.
pub record IsShared (s : Shared) : Type 0 where
  pub distinct : DistinctMethods s.ways
  pub covered : EndsBy s.expires_at s.ways

-- Keeping a way preserves that, puts the way last with every other method's entry left in place
-- and order before it, never shortens the shared session, and ends it no later than any bound on
-- its earlier end and on the ways' ends.
pub keep-IsShared :
    (s : Shared) (w : Way)
    → IsShared s
    → IsShared (keep s w)
      × ((keep s w).ways ≡ other_ways w s.ways ++ w ∷ [])
      × (s.expires_at ≤ (keep s w).expires_at)
      × ((bound : ℕ)
          → s.expires_at ≤ bound
          → EndsBy bound (keep s w).ways
          → (keep s w).expires_at ≤ bound)
unfolding keep
keep-IsShared s w v =
    let ways = other_ways w s.ways ++ w ∷ [] in
    let (above, all) = latest_end-ge s.expires_at ways in
    (
      record { distinct = keep-DistinctMethods w s.ways v.distinct; covered = all },
      refl,
      above,
      λ bound h k. latest_end-least s.expires_at bound ways h k,
    )
