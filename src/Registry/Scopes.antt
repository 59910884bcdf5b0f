-- ===== src/Registry/Scopes.antt =====
-- registry/registry.go: a scope is a box (service/feature:act) or a level (group:level), and a
-- scope text is a list of them between spaces.
pub mod Shapes
pub mod Words
use Prim.Native.Char.{Char, code}
use Prim.Native.String.{String, ◌++◌ as append}
use authbyte.Prelude.{
  ℕ, Bool, true, false, not, ◌&&◌, ◌||◌, List, [], ◌∷◌, Option, none, some, ltb, leb, any, is_empty,
  if◌then◌else◌,
}

-- The code points of a text.
abbrev pub codes : String → List ℕ
codes String.[] = []
codes (String.◌∷◌ c s) = code c ∷ codes s

-- `unicode.IsSpace`: the Latin-1 cases of Go's source, then the property White_Space.
unfoldable pub is_space : ℕ → Bool
is_space c =
    (leb 9 c && leb c 13)
    || (leb 32 c && leb c 32)
    || (leb 133 c && leb c 133)
    || (leb 160 c && leb c 160)
    || (leb 5760 c && leb c 5760)
    || (leb 8192 c && leb c 8202)
    || (leb 8232 c && leb c 8233)
    || (leb 8239 c && leb c 8239)
    || (leb 8287 c && leb c 8287)
    || (leb 12288 c && leb c 12288)

abbrev pub is_code : ℕ → ℕ → Bool
is_code a b = leb a b && leb b a

-- `strings.Cut` at one byte: what stands before it and after it, and whether it is there.
pub record Halves : Type 0 where
  pub before : List ℕ
  pub after : List ℕ
  pub found : Bool

unfoldable pub cut : ℕ → List ℕ → Halves
cut sep [] = record { before = []; after = []; found = false }
cut sep (c ∷ cs) =
    let rest = cut sep cs in
    if is_code c sep
    then record { before = []; after = cs; found = true }
    else record { before = c ∷ rest.before; after = rest.after; found = rest.found }

abbrev pub first_is : ℕ → List ℕ → Bool
first_is c [] = false
first_is c (x ∷ xs) = is_code x c

unfoldable pub last_is : ℕ → List ℕ → Bool
last_is c [] = false
last_is c (x ∷ []) = is_code x c
last_is c (x ∷ y ∷ ys) = last_is c (y ∷ ys)

unfoldable pub is_box : String → Bool
is_box s =
    let parts = cut b':' (codes s) in
    parts.found
    && not (is_empty parts.after)
    && any (is_code b'/') parts.before
    && not (first_is b'/' parts.before)
    && not (last_is b'/' parts.before)
    && not (any is_space (codes s))

unfoldable pub is_level : String → Bool
is_level s =
    let parts = cut b':' (codes s) in
    parts.found
    && not (is_empty parts.before)
    && not (is_empty parts.after)
    && not (any (is_code b':') parts.after)
    && not (any (is_code b'/') (codes s))
    && not (any is_space (codes s))

-- The words of a text so far: the one that begins it, and the ones after a space.
abbrev pub push : String → List String → List String
push String.[] words = words
push (String.◌∷◌ c s) words = (String.◌∷◌ c s) ∷ words

unfoldable pub words : String → String × List String
words String.[] = (String.[], [])
words (String.◌∷◌ c s) =
    let rest = words s in
    if is_space (code c) then (String.[], push rest.0 rest.1) else (String.◌∷◌ c rest.0, rest.1)

-- `strings.Fields`
unfoldable pub parse_scope_string : String → List String
unfolding words
parse_scope_string s = let all_words = words s in push all_words.0 all_words.1

-- `strings.Join(scopes, " ")`, the scope text of a token
unfoldable pub join : List String → String
join [] = ""
join (s ∷ []) = s
join (s ∷ t ∷ ts) = append s (append " " (join (t ∷ ts)))
