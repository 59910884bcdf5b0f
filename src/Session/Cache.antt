-- ===== src/Session/Cache.antt =====
-- The shared cache (azugo's typed cache over Valkey), which the store is kept in: a third-party
-- service, so an interface. An instance holds values of one type; each command is one step. The
-- laws are the documented ones: SET with PX writes a value that is gone once its time to live has
-- passed, DEL removes, NX writes only over no value and XX only over one, GETDEL reads and removes.
use authbyte.Prelude.{
  ℕ, ◌+◌, ◌-◌, String, ◌≡◌, Bool, true, false, Option, none, some, is_some, ltb, ◌==◌,
  if◌then◌else◌,
}

pub record Cache : Type 1 where
  pub Contents : Type 0 → Type 0
  -- GET, at a time
  pub get : {V : Type 0} → Contents V → ℕ → String → Option V
  -- PTTL: what is left of a value's time, 0 for none
  pub left : {V : Type 0} → Contents V → ℕ → String → ℕ
  -- SET key value PX ttl, at a time
  pub set : {V : Type 0} → Contents V → ℕ → String → V → ℕ → Contents V
  pub del : {V : Type 0} → Contents V → String → Contents V
  -- SET … NX, SET … XX: whether the value was written
  pub add : {V : Type 0} → Contents V → ℕ → String → V → ℕ → Bool × Contents V
  pub replace : {V : Type 0} → Contents V → ℕ → String → V → ℕ → Bool × Contents V
  -- GETDEL
  pub pop : {V : Type 0} → Contents V → ℕ → String → Option V × Contents V
  pub get-set :
      {V : Type 0} (c : Contents V) (t : ℕ) (k : String) (v : V) (ttl : ℕ) (u : ℕ) (j : String)
      → get (set c t k v ttl) u j
        ≡ (if k == j then (if ltb u (t + ttl) then some v else none) else get c u j)
  pub get-del :
      {V : Type 0} (c : Contents V) (k : String) (u : ℕ) (j : String)
      → get (del c k) u j ≡ (if k == j then none else get c u j)
  pub left-set :
      {V : Type 0} (c : Contents V) (t : ℕ) (k : String) (v : V) (ttl : ℕ) (u : ℕ) (j : String)
      → left (set c t k v ttl) u j ≡ (if k == j then (t + ttl) - u else left c u j)
  pub add_lem :
      {V : Type 0} (c : Contents V) (t : ℕ) (k : String) (v : V) (ttl : ℕ)
      → add c t k v ttl ≡ (if is_some (get c t k) then (false, c) else (true, set c t k v ttl))
  pub replace_lem :
      {V : Type 0} (c : Contents V) (t : ℕ) (k : String) (v : V) (ttl : ℕ)
      → replace c t k v ttl ≡ (if is_some (get c t k) then (true, set c t k v ttl) else (false, c))
  pub pop_lem :
      {V : Type 0} (c : Contents V) (t : ℕ) (k : String) → pop c t k ≡ (get c t k, del c k)
