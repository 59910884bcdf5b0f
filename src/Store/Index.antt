-- ===== src/Store/Index.antt =====
-- session/store.go: the browsers' shared sessions with the app sessions under each, and the index of
-- the AI apps connected as each assistant. The scripts run in the cache as one step each.
use Prim.Native.String.{◌++◌ as append}
use Prim.Native.Char.{code}
use authbyte.Prelude.{
  ℕ, ◌-◌, String, not, ◌&&◌, List, [], ◌∷◌, Option, none, some, Assoc, lookup, insert, remove,
  is_some, leb, keep, if◌then◌else◌,
}
use Prim.Native.Nat.{max}
use authbyte.Act.{pure, gets, modify, refuse_if, ◌>>=◌, ◌>>◌}
use authbyte.Session.Types.{Connection}
use authbyte.Session.Shared.{Shared, shared_expired}
use authbyte.World.{Env}
use authbyte.Store.Calls.{not_found, exists, Call, reach, found}

abbrev pub list_or_empty {ℓ} : {V : Type ℓ} → Option (Assoc V) → Assoc V
list_or_empty none = []
list_or_empty (some m) = m

-- "" when there was none
abbrev pub text_or_empty : Option String → String
text_or_empty none = ""
text_or_empty (some s) = s

unfoldable pub connection_key : String → String → String
connection_key tenant assistant = append tenant (append "/" assistant)

unfoldable pub member : Connection → String
member c = append c.id (append " " c.session_id)

-- `strings.Cut(m, " ")`, where there is a space
unfoldable pub cut_space : String → Option (String × String)
cut_space String.[] = none
cut_space (String.◌∷◌ c s) =
    let rest = cut_space s in
    if leb 32 (code c) && leb (code c) 32
    then some (String.[], s)
    else elim rest [ none ↦ none | some p ↦ some (String.◌∷◌ c p.0, p.1) ]

-- a member that does not cut is passed over
unfoldable pub members : Assoc ℕ → List Connection
members [] = []
members ((m, end) ∷ rest) =
    let others = members rest in
    elim (cut_space m) [ none ↦ others | some p ↦ record { id = p.0; session_id = p.1 } ∷ others ]

module _ (env : Env) where
  open env use {cache}

  unfoldable pub create_shared : String → Shared → Call env (Unit {0})
  create_shared id sh = do
    now ← gets (λ w. w.now)
    refuse_if (leb sh.expires_at now) not_found
    reach env
    added ← gets (λ w. cache.add w.shared w.now id sh (sh.expires_at - w.now))
    modify (λ w. record w { shared = added.1 })
    refuse_if (not added.0) exists

  unfoldable pub replace_shared : String → Shared → Call env (Unit {0})
  replace_shared id sh = do
    now ← gets (λ w. w.now)
    refuse_if (leb sh.expires_at now) not_found
    reach env
    replaced ← gets (λ w. cache.replace w.shared w.now id sh (sh.expires_at - w.now))
    modify (λ w. record w { shared = replaced.1 })
    refuse_if (not replaced.0) not_found

  unfoldable pub load_shared : String → Call env Shared
  load_shared id = do
    reach env
    kept ← gets (λ w. cache.get w.shared w.now id)
    sh ← found env kept
    now ← gets (λ w. w.now)
    refuse_if (shared_expired sh now) not_found
    pure sh

  -- the script putSharedApp: HGET, HSET, PEXPIRE
  unfoldable pub put_shared_app : String → String → String → ℕ → Call env String
  put_shared_app id client sid until = do
    now ← gets (λ w. w.now)
    refuse_if (leb until now) not_found
    reach env
    apps ← gets (λ w. list_or_empty (cache.get w.shared_apps w.now id))
    modify (λ w. record w {
      shared_apps = cache.set w.shared_apps w.now id (insert apps client sid) (until - w.now);
    })
    pure (text_or_empty (lookup apps client))

  unfoldable pub shared_apps : String → Call env (Assoc String)
  shared_apps id = do reach env; gets (λ w. list_or_empty (cache.get w.shared_apps w.now id))

  -- The record goes first, then its list (the script takeSharedApps): two calls of the cache.
  unfoldable pub end_shared : String → Call env (Assoc String)
  end_shared id = do
    reach env
    removed ← gets (λ w. is_some (cache.get w.shared w.now id))
    modify (λ w. record w { shared = cache.del w.shared id })
    refuse_if (not removed) not_found
    reach env
    apps ← gets (λ w. list_or_empty (cache.get w.shared_apps w.now id))
    modify (λ w. record w { shared_apps = cache.del w.shared_apps id })
    pure apps

  -- the script addConnection: ZADD, then PEXPIRE where the index would end sooner
  unfoldable pub add_connection : String → String → Connection → ℕ → Call env (Unit {0})
  unfolding connection_key member
  add_connection tenant assistant c until = do
    now ← gets (λ w. w.now)
    refuse_if (leb until now) not_found
    reach env
    let key = connection_key tenant assistant
    index ← gets (λ w. list_or_empty (cache.get w.connections w.now key))
    modify (λ w. record w {
      connections =
          cache.set w.connections w.now key (insert index (member c) until)
            (max (cache.left w.connections w.now key) (until - w.now));
    })

  -- the script liveConnections: ZREMRANGEBYSCORE up to now, then ZRANGE; in no order
  unfoldable pub connections : String → String → Call env (List Connection)
  unfolding connection_key members
  connections tenant assistant = do
    reach env
    let key = connection_key tenant assistant
    index ← gets (λ w. list_or_empty (cache.get w.connections w.now key))
    now ← gets (λ w. w.now)
    let live = keep (λ e. not (leb e.1 now)) index
    modify (λ w. record w {
      connections = cache.set w.connections w.now key live (cache.left w.connections w.now key);
    })
    pure (members live)

  unfoldable pub remove_connection : String → String → Connection → Call env (Unit {0})
  unfolding connection_key member
  remove_connection tenant assistant c = do
    reach env
    let key = connection_key tenant assistant
    index ← gets (λ w. list_or_empty (cache.get w.connections w.now key))
    modify (λ w. record w {
      connections =
          cache.set w.connections w.now key (remove index (member c))
            (cache.left w.connections w.now key);
    })
