-- ===== src/Identity/Catalog/Laws.antt =====
-- identity/catalog.go: which person can be given an authentication identity.
use Prim.Native.Char.{Char}
use authbyte.Prelude.{String, ◌≡◌, refl, Bool, true, List, [], ◌∷◌, find, any, is_some, arith}
use authbyte.Identity.Catalog.{
  SignIdentity, select_auth, has_labels, is_primary, is_auth, desc_eid_auth, desc_mobile_id_auth,
  label_eid, label_mobile_id,
}

find-is_some : (p : SignIdentity → Bool) (xs : List SignIdentity) → is_some (find p xs) ≡ any p xs
find-is_some p [] = refl
find-is_some p (x ∷ xs) = ground (arith, find-is_some p xs)

any_weaker :
    (p q : SignIdentity → Bool) (xs : List SignIdentity)
    → ((s : SignIdentity) → p s ≡ true → q s ≡ true)
    → any p xs ≡ true
    → any q xs ≡ true
any_weaker p q [] h k = k
any_weaker p q (x ∷ xs) h k = ground (arith, any_weaker p q xs h, h x)

module _ (lower : Char → Char) (equal_fold : String → String → Bool) where
  eid_auth :
      (s : SignIdentity)
      → is_primary lower equal_fold desc_eid_auth label_eid s ≡ true
      → is_auth lower equal_fold s ≡ true
  unfolding has_labels
  eid_auth s h = ground arith

  mobile_auth :
      (s : SignIdentity)
      → is_primary lower equal_fold desc_mobile_id_auth label_mobile_id s ≡ true
      → is_auth lower equal_fold s ≡ true
  unfolding has_labels
  mobile_auth s h = ground arith

  -- An authentication identity is chosen exactly when the catalog holds one that names itself one, or
  -- that signs digitally: where the one paired with the sign-in's method is missing, another serves.
  pub select_auth_iff :
      (catalog : List SignIdentity) (login_method : String)
      → is_some (select_auth lower equal_fold catalog login_method)
        ≡ any (is_auth lower equal_fold) catalog
  unfolding select_auth
  select_auth_iff catalog login_method = ground (
    arith,
    find-is_some (is_auth lower equal_fold) catalog,
    find-is_some (is_primary lower equal_fold desc_eid_auth label_eid) catalog,
    find-is_some (is_primary lower equal_fold desc_mobile_id_auth label_mobile_id) catalog,
    any_weaker (is_primary lower equal_fold desc_eid_auth label_eid) (is_auth lower equal_fold)
        catalog eid_auth,
    any_weaker (is_primary lower equal_fold desc_mobile_id_auth label_mobile_id)
        (is_auth lower equal_fold) catalog mobile_auth,
  )
