-- ===== src/Session/Shared.antt =====
-- session/shared.go: a browser's shared session, and the ways its person signed in.
pub mod Laws
use authbyte.Prelude.{
  ℕ, String, Bool, true, false, not, ◌||◌, List, [], ◌∷◌, ◌++◌, keep as keep_if, ltb, ◌==◌,
  if◌then◌else◌,
}
use authbyte.Session.Types.{is_before, is_zero}

pub record Way : Type 0 where
  pub way_method : String
  pub loa : String
  pub auth_time : ℕ
  pub amr : List String
  pub signed_in : ℕ
  pub ends : ℕ

pub record Shared : Type 0 where
  pub secret_hash : String
  pub subject : String
  pub name : String
  pub given_name : String
  pub family_name : String
  pub serial_number : String
  pub directory_issuer : String
  pub directory_guest : Bool
  pub ways : List Way
  pub expires_at : ℕ

unfoldable pub shared_expired : Shared → ℕ → Bool
shared_expired s now = is_zero s.expires_at || not (is_before now s.expires_at)

-- the loop that moves the end to the last way's
unfoldable pub latest_end : ℕ → List Way → ℕ
latest_end t [] = t
latest_end t (o ∷ rest) = latest_end (if ltb t o.ends then o.ends else t) rest

abbrev pub other_ways : Way → List Way → List Way
other_ways w ways = keep_if (λ o. not (o.way_method == w.way_method)) ways

unfoldable pub keep : Shared → Way → Shared
unfolding latest_end
keep s w =
    let ways = other_ways w s.ways ++ w ∷ [] in
    record s { ways = ways; expires_at = latest_end s.expires_at ways }
