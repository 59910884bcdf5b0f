-- ===== src/Tests/Memory.antt =====
-- A cache in memory: each value with the time at which it ends.
use authbyte.Prelude.{
  ℕ, ◌+◌, ◌-◌, String, ◌≡◌, refl, true, false, Option, none, some, Assoc, lookup, insert, remove,
  lookup-insert, lookup-remove, is_some, ltb, arith, ◌==◌, if◌then◌else◌,
}
use authbyte.Session.Cache.{Cache}

abbrev pub Timed : Type 0 → Type 0
Timed V = Assoc (V × ℕ)

module _ {V : Type 0} where
  abbrev pub unless_ended : ℕ → Option (V × ℕ) → Option V
  unless_ended t none = none
  unless_ended t (some (v, end)) = if ltb t end then some v else none

  abbrev pub time_left : ℕ → Option (V × ℕ) → ℕ
  time_left t none = 0
  time_left t (some (v, end)) = end - t

  unfoldable pub get_timed : Timed V → ℕ → String → Option V
  get_timed c t k = unless_ended t (lookup c k)

  unfoldable pub left_timed : Timed V → ℕ → String → ℕ
  left_timed c t k = time_left t (lookup c k)

  unfoldable pub set_timed : Timed V → ℕ → String → V → ℕ → Timed V
  set_timed c t k v ttl = insert c k (v, t + ttl)

  pub get-set_timed :
      (c : Timed V) (t : ℕ) (k : String) (v : V) (ttl u : ℕ) (j : String)
      → get_timed (set_timed c t k v ttl) u j
        ≡ (if k == j then (if ltb u (t + ttl) then some v else none) else get_timed c u j)
  unfolding get_timed set_timed
  get-set_timed c t k v ttl u j = ground (arith, lookup-insert c k j (v, t + ttl))

  pub get-remove :
      (c : Timed V) (k : String) (u : ℕ) (j : String)
      → get_timed (remove c k) u j ≡ (if k == j then none else get_timed c u j)
  unfolding get_timed
  get-remove c k u j = ground (arith, lookup-remove c k j)

  pub left-set_timed :
      (c : Timed V) (t : ℕ) (k : String) (v : V) (ttl u : ℕ) (j : String)
      → left_timed (set_timed c t k v ttl) u j
        ≡ (if k == j then (t + ttl) - u else left_timed c u j)
  unfolding left_timed set_timed
  left-set_timed c t k v ttl u j = ground (arith, lookup-insert c k j (v, t + ttl))

-- The documented laws hold of it.
abbrev pub memory : Cache
memory = record {
  Contents = Timed;
  get = λ c t k. get_timed c t k;
  left = λ c t k. left_timed c t k;
  set = λ c t k v ttl. set_timed c t k v ttl;
  del = λ c k. remove c k;
  add = λ c t k v ttl.
      if is_some (get_timed c t k) then (false, c) else (true, set_timed c t k v ttl);
  replace = λ c t k v ttl.
      if is_some (get_timed c t k) then (true, set_timed c t k v ttl) else (false, c);
  pop = λ c t k. (get_timed c t k, remove c k);
  get-set = λ c t k v ttl u j. get-set_timed c t k v ttl u j;
  get-del = λ c k u j. get-remove c k u j;
  left-set = λ c t k v ttl u j. left-set_timed c t k v ttl u j;
  add_lem = λ c t k v ttl. refl;
  replace_lem = λ c t k v ttl. refl;
  pop_lem = λ c t k. refl;
}
