-- ===== src/Upstream/Laws.antt =====
-- upstream/set.go: what every set of providers that `NewSet` makes keeps apart.
use mathlib.Core.List.{append_assoc, append-nil}
use authbyte.Prelude.{
  String, ◌≡◌, ◌≢◌, refl, sym, ap, subst, ◌∙◌, Bool, true, false, not, ◌&&◌, ◌||◌, List, [], ◌∷◌,
  ◌++◌, none, Result, ok, Assoc, lookup, insert, lookup-insert, contains, All, is_some, is_empty,
  arith, eq_iff, ◌==◌, >>=-eq-ok, if-eq-ok,
}
use authbyte.Identity.Methods.{login_web_eid, provider_web_eid}
use authbyte.Upstream.{
  Entry, Providers, Read, SetError, by_method, add_methods, card_method, same_method, no_entry,
  names_of, paths_of, hold, check_entry, read_entry, read_entries, identifier, credential_key,
  key_entries, key_methods, held, new_set,
}

-- No text twice.
abbrev pub distinct : List String → Bool
distinct [] = true
distinct (s ∷ ss) = not (contains ss s) && distinct ss

contains_end :
    (ss : List String) (s t : String)
    → contains ss t ≡ false
    → (s == t) ≡ false
    → contains (ss ++ s ∷ []) t ≡ false
contains_end [] s t h e = ground (arith, e)
contains_end (r ∷ rs) s t h e = ground (arith, h, e, contains_end rs s t)

distinct_end :
    (ss : List String) (s : String)
    → distinct ss ≡ true
    → contains ss s ≡ false
    → distinct (ss ++ s ∷ []) ≡ true
distinct_end [] s h e = refl
distinct_end (r ∷ rs) s h e =
    ground (arith, h, e, distinct_end rs s, contains_end rs s r, eq_iff r s, eq_iff s r)

names_of_end : (es : List Entry) (e : Entry) → names_of (es ++ e ∷ []) ≡ names_of es ++ e.name ∷ []
unfolding names_of
names_of_end [] e = refl
names_of_end (d ∷ ds) e = ap (λ l. d.name ∷ l) (names_of_end ds e)

paths_of_end :
    (es : List Entry) (e : Entry) → paths_of (es ++ e ∷ []) ≡ paths_of es ++ e.return_path ∷ []
unfolding paths_of
paths_of_end [] e = refl
paths_of_end (d ∷ ds) e = ap (λ l. d.return_path ∷ l) (paths_of_end ds e)

inject_ok {ℓ} : {A : Type ℓ} (a b : A) → Path (Result SetError A) (ok a) (ok b) → a ≡ b
inject_ok a b e = cc

-- The methods of every entry, in order.
abbrev pub methods_of : List Entry → List String
methods_of [] = []
methods_of (e ∷ es) = e.provider.methods ++ methods_of es

methods_of_end :
    (es : List Entry) (e : Entry) → methods_of (es ++ e ∷ []) ≡ methods_of es ++ e.provider.methods
methods_of_end [] e = append-nil e.provider.methods
methods_of_end (d ∷ ds) e =
    ap (λ l. d.provider.methods ++ l) (methods_of_end ds e)
    ∙ sym (append_assoc d.provider.methods (methods_of ds) e.provider.methods)

-- The entries but for what their people are kept under, which a set decides itself.
abbrev pub bare : List Entry → List Entry
bare [] = []
bare (e ∷ es) = record e { key = "" } ∷ bare es

contains_one_more :
    (ss : List String) (s t : String) → contains (ss ++ s ∷ []) t ≡ (contains ss t || s == t)
contains_one_more [] s t = ground arith
contains_one_more (r ∷ rs) s t = ground (arith, contains_one_more rs s t)

-- A table of just these methods, none of them twice nor the card's.
record IsTable (m : Assoc Entry) (methods : List String) : Type 0 where
  once : distinct methods ≡ true
  there : (k : String) → is_some (lookup m k) ≡ contains methods k
  no_card : contains methods login_web_eid ≡ false

add_method-IsTable :
    (e : Entry) (a : String) (m : Assoc Entry) (methods : List String)
    → IsTable m methods
    → (a == login_web_eid) ≡ false
    → is_some (lookup m a) ≡ false
    → IsTable (insert m a e) (methods ++ a ∷ [])
add_method-IsTable e a m methods h other fresh = record {
  once = distinct_end methods a h.once (sym (h.there a) ∙ fresh);
  there = λ k.
      ground (arith, h.there k, contains_one_more methods a k, lookup-insert m a k e, eq_iff a k);
  no_card = contains_end methods a login_web_eid h.no_card other;
}

add_methods-IsTable :
    (e : Entry) (ms : List String) (m n : Assoc Entry) (methods : List String)
    → IsTable m methods
    → add_methods e ms m ≡ ok n
    → IsTable n (methods ++ ms)
unfolding add_methods
add_methods-IsTable e [] m n methods h ran =
    subst (IsTable n) (sym (append-nil methods))
      (subst (λ t. IsTable t methods) (inject_ok m n ran) h)
add_methods-IsTable e (a ∷ rest) m n methods h ran =
    let (other, ran1) = if-eq-ok (a == login_web_eid) card_method _ ran in
    let (fresh, ran2) = if-eq-ok (is_some (lookup m a)) same_method _ ran1 in
    subst (IsTable n) (append_assoc methods (a ∷ []) rest) (
      add_methods-IsTable e rest (insert m a e) n (methods ++ a ∷ [])
        (add_method-IsTable e a m methods h other fresh) ran2)

-- What the first loop keeps.
record IsRead (r : Read) : Type 0 where
  names : distinct (names_of r.entries) ≡ true
  paths : distinct (paths_of r.entries) ≡ true
  table : IsTable r.of_method (methods_of r.entries)

check_entry-eq-ok :
    (r : Read) (e : Entry)
    → check_entry r e ≡ ok tt
    → (contains (names_of r.entries) e.name ≡ false)
      × (contains (paths_of r.entries) e.return_path ≡ false)
unfolding check_entry
check_entry-eq-ok r e ran = (ground (arith, ran), ground (arith, ran))

read_entry-IsRead :
    (r s : Read) (e : Entry)
    → IsRead r
    → read_entry r e ≡ ok s
    → IsRead s × (s.entries ≡ r.entries ++ e ∷ [])
unfolding read_entry
read_entry-IsRead r s e h ran =
    let (checked, passed, ran1) = >>=-eq-ok _ _ ran in
    let (of_method, added, ran2) =
      >>=-eq-ok (add_methods e e.provider.methods r.of_method) _ ran1 in
    let (holder, one, ran3) = >>=-eq-ok (hold e r.holder) _ ran2 in
    let (fresh_name, fresh_path) = check_entry-eq-ok r e passed in
    subst (λ t. IsRead t × (t.entries ≡ r.entries ++ e ∷ []))
      (inject_ok (record { entries = r.entries ++ e ∷ []; of_method = of_method; holder = holder })
        s ran3)
      (
        record {
          names =
              subst (λ l. distinct l ≡ true) (sym (names_of_end r.entries e))
                (distinct_end (names_of r.entries) e.name h.names fresh_name);
          paths =
              subst (λ l. distinct l ≡ true) (sym (paths_of_end r.entries e))
                (distinct_end (paths_of r.entries) e.return_path h.paths fresh_path);
          table = subst (IsTable of_method) (sym (methods_of_end r.entries e)) (
              add_methods-IsTable e e.provider.methods r.of_method of_method (methods_of r.entries)
                h.table added);
        },
        refl,
      )

read_entries-IsRead :
    (r s : Read) (es : List Entry)
    → IsRead r
    → read_entries r es ≡ ok s
    → IsRead s × (s.entries ≡ r.entries ++ es)
unfolding read_entries
read_entries-IsRead r s [] h ran =
    let same = inject_ok r s ran in
    (subst IsRead same h, ap (λ t. t.entries) (sym same) ∙ sym (append-nil r.entries))
read_entries-IsRead r s (e ∷ es) h ran =
    let (next, first, ran1) = >>=-eq-ok _ _ ran in
    let (h1, grown) = read_entry-IsRead r next e h first in
    let (h2, all_grown) = read_entries-IsRead next s es h1 ran1 in
    (h2, all_grown ∙ ap (λ l. l ++ es) grown ∙ append_assoc r.entries (e ∷ []) es)

-- A sign-in kept under no provider that is the card's.
abbrev pub IsApart : Entry → Type 0
IsApart e = e.key ≢ provider_web_eid

blank_apart : ("" == provider_web_eid) ≡ false
blank_apart = refl

credential_key-IsApart :
    (holder e : Entry) (key : String) → credential_key holder e ≡ ok key → key ≢ provider_web_eid
unfolding credential_key
credential_key-IsApart holder e key ran h = ground (
  arith,
  ran,
  h,
  blank_apart,
  eq_iff (identifier e.provider) provider_web_eid,
  eq_iff "" provider_web_eid,
)

-- The entries of a set with what their people are kept under.
record IsKeyed (es ks : List Entry) : Type 0 where
  same : bare ks ≡ bare es
  names : names_of ks ≡ names_of es
  paths : paths_of ks ≡ paths_of es
  methods : methods_of ks ≡ methods_of es
  apart : All IsApart ks

key_entries-IsKeyed :
    (holder : Entry) (es ks : List Entry) → key_entries holder es ≡ ok ks → IsKeyed es ks
unfolding key_entries names_of paths_of
key_entries-IsKeyed holder [] ks ran =
    subst (IsKeyed []) (inject_ok [] ks ran)
      (record { same = refl; names = refl; paths = refl; methods = refl; apart = tt })
key_entries-IsKeyed holder (e ∷ es) ks ran =
    let (key, keyed_first, ran1) = >>=-eq-ok _ _ ran in
    let (rest, keyed_rest, ran2) = >>=-eq-ok _ _ ran1 in
    let h = key_entries-IsKeyed holder es rest keyed_rest in
    subst (IsKeyed (e ∷ es)) (inject_ok (record e { key = key } ∷ rest) ks ran2) (record {
      same = ap (λ l. record e { key = "" } ∷ l) h.same;
      names = ap (λ l. e.name ∷ l) h.names;
      paths = ap (λ l. e.return_path ∷ l) h.paths;
      methods = ap (λ l. e.provider.methods ++ l) h.methods;
      apart = (credential_key-IsApart holder e key keyed_first, h.apart);
    })

key_methods_there :
    (ks : List Entry) (m : Assoc Entry) (k : String)
    → is_some (lookup (key_methods ks m) k) ≡ is_some (lookup m k)
unfolding key_methods lookup
key_methods_there ks [] k = refl
key_methods_there ks ((j, e) ∷ m) k = ground (arith, key_methods_there ks m k)

-- A set of these entries, which keeps them apart.
pub record IsTold (entries : List Entry) (s : Providers) : Type 0 where
  pub same : bare s.entries ≡ bare entries
  pub names : distinct (names_of s.entries) ≡ true
  pub paths : distinct (paths_of s.entries) ≡ true
  pub methods : distinct (methods_of s.entries) ≡ true
  pub found : (m : String) → is_some (by_method s m) ≡ contains (methods_of s.entries) m
  pub no_card : contains (methods_of s.entries) login_web_eid ≡ false
  pub keys : All IsApart s.entries

-- A set of providers that is made has the entries it was given, in their order, and decides only what
-- their people are kept under. No two of them have the same name or answer on the same return path,
-- no method is claimed twice, exactly the methods that they claim are found, the card's is not among
-- them, and the people of none are kept under the card's provider.
pub new_set-IsTold :
    (entries : List Entry) (s : Providers) → new_set entries ≡ ok s → IsTold entries s
unfolding new_set names_of paths_of lookup by_method
new_set-IsTold entries s ran =
    let (some_entry, ran1) = if-eq-ok (is_empty entries) no_entry _ ran in
    let (r, read, ran2) = >>=-eq-ok _ _ ran1 in
    let (holder, one, ran3) = >>=-eq-ok (held r.holder) _ ran2 in
    let (ks, given_keys, ran4) = >>=-eq-ok _ _ ran3 in
    let (is_read, all_there) =
      read_entries-IsRead (record { entries = []; of_method = []; holder = none }) r entries
        (record {
          names = refl;
          paths = refl;
          table = record { once = refl; there = λ k. refl; no_card = refl };
        })
        read in
    let h = key_entries-IsKeyed holder r.entries ks given_keys in
    subst (IsTold entries)
      (inject_ok (record { entries = ks; of_method = key_methods ks r.of_method }) s ran4)
      (record {
        same = h.same ∙ ap bare all_there;
        names = subst (λ l. distinct l ≡ true) (sym h.names) is_read.names;
        paths = subst (λ l. distinct l ≡ true) (sym h.paths) is_read.paths;
        methods = subst (λ l. distinct l ≡ true) (sym h.methods) is_read.table.once;
        found = λ m.
            key_methods_there ks r.of_method m
            ∙ is_read.table.there m
            ∙ ap (λ l. contains l m) (sym h.methods);
        no_card =
            subst (λ l. contains l login_web_eid ≡ false) (sym h.methods) is_read.table.no_card;
        keys = h.apart;
      })
