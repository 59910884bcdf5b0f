-- ===== src/Session/Types/Laws.antt =====
-- The name that a register shows.
use authbyte.Prelude.{◌≢◌, arith, eq_iff}
use Prim.Native.String.{◌++◌ as append}
use authbyte.Session.Types.{UserSession, display_name, trim_left, trim_right}

-- The name shown for a person is never empty: a session always has its subject, and the name falls
-- back on it.
pub display_name_nonempty : (s : UserSession) → s.subject ≢ "" → display_name s ≢ ""
unfolding display_name
display_name_nonempty s named e = ground (
  arith,
  named,
  eq_iff s.name "",
  eq_iff s.subject "",
  eq_iff (trim_right (trim_left (append s.given_name (append " " s.family_name)))) "",
)
