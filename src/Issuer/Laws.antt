-- ===== src/Issuer/Laws.antt =====
-- How long an on-behalf-of token lives.
use authbyte.Prelude.{◌≤◌, ◌<◌, ◌≡◌, some, arith}
use authbyte.Claims.{Claims}
use authbyte.World.{Env}
use authbyte.Issuer.{DelegatedTokenInput, issue_delegated}

-- An on-behalf-of token never outlives a service token, nor a shorter lifetime that its call asks
-- for, and names the person it acts for with the actor chain and the key it was asked for.
pub issue_delegated_bounds :
    (env : Env) (input : DelegatedTokenInput) (c : Claims)
    → issue_delegated env input ≡ some c
    → (c.lifetime ≤ env.service_ttl)
      × (0 < input.ttl → c.lifetime ≤ input.ttl)
      × (c.subject ≡ input.subject)
      × (c.act ≡ input.actor)
      × (c.thumbprint ≡ input.thumbprint)
unfolding issue_delegated
issue_delegated_bounds env input c h =
    (ground arith, λ asked. ground arith, ground arith, ground arith, ground arith)
