-- ===== src/Rolebyte/Laws.antt =====
-- Whom an answer is about.
use authbyte.Prelude.{String, ◌≡◌, true, List, some, ok, eq_iff, arith, Option-cases, inl, inr}
use authbyte.Act.{pure, raise, gets, modify, refuse_if, ◌>>=◌}
use authbyte.Register.{Membership, Assistant}
use authbyte.World.{Env, World}
use authbyte.Rolebyte.{answered_for, answer, settled, claim, memberships, assistants}

module _ (env : Env) where
  open env use {register}

  -- Memberships are answered only from a register's answer that names the very key asked about,
  -- after that key's invitations were claimed, and only the register's own state changes on the way.
  pub memberships_about :
      (key : String) (w : World env) (ms : List Membership) (v : World env)
      → memberships env key w ≡ (ok ms, v)
      → (register.memberships_door v.register key ≡ some (record { subject_key = key; holds = ms }))
        × ((register.claims_door w.register key).0 ≡ true)
        × (v ≡ record w { register = (register.claims_door w.register key).1 })
  unfolding memberships claim answer settled answered_for ◌>>=◌ gets modify refuse_if pure raise
  memberships_about key w ms v h =
      let claimed = (register.claims_door w.register key).1 in
      elim (Option-cases (register.memberships_door claimed key)) [
        | inl silent ↦ absurd (ground (arith, silent))
        | inr (res, read) ↦ (
          ground (arith, read, eq_iff res.subject_key key),
          ground (arith, read),
          ground (arith, read),
        )
      ]

  -- So are a person's assistants.
  pub assistants_about :
      (key : String) (w : World env) (own : List Assistant) (v : World env)
      → assistants env key w ≡ (ok own, v)
      → (register.assistants_door v.register key ≡ some (record { subject_key = key; holds = own }))
        × ((register.claims_door w.register key).0 ≡ true)
        × (v ≡ record w { register = (register.claims_door w.register key).1 })
  unfolding assistants claim answer settled answered_for ◌>>=◌ gets modify refuse_if pure raise
  assistants_about key w own v h =
      let claimed = (register.claims_door w.register key).1 in
      elim (Option-cases (register.assistants_door claimed key)) [
        | inl silent ↦ absurd (ground (arith, silent))
        | inr (res, read) ↦ (
          ground (arith, read, eq_iff res.subject_key key),
          ground (arith, read),
          ground (arith, read),
        )
      ]
