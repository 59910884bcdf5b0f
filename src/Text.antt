-- ===== src/Text.antt =====
-- The functions of Go's package strings that the identity vocabulary uses. `unicode.ToLower` is a
-- table of the Unicode standard, so a parameter.
pub mod Order
use Prim.Native.Char.{Char}
use Prim.Native.String.{◌++◌ as append, len, compare}
use text.Mathlib.Text.{is_lt, find?}
use authbyte.Prelude.{String, Bool, true, false, List, [], ◌∷◌, is_some, ltb, if◌then◌else◌}

-- `strings.ToLower`
unfoldable pub to_lower : (Char → Char) → String → String
to_lower lower String.[] = String.[]
to_lower lower (String.◌∷◌ c s) = String.◌∷◌ (lower c) (to_lower lower s)

-- `strings.Contains`
abbrev pub contains_text : String → String → Bool
contains_text s t = is_some (find? s t)

-- `strings.Join`
unfoldable pub join_with : String → List String → String
join_with sep [] = ""
join_with sep (s ∷ []) = s
join_with sep (s ∷ t ∷ ts) = append s (append sep (join_with sep (t ∷ ts)))

-- The longer text first, and texts of one length in alphabetical order, by their bytes.
unfoldable pub key_before : String → String → Bool
key_before a b =
    if ltb (len b) (len a) then true else if ltb (len a) (len b) then false else is_lt (compare a b)

-- `sort.Slice` by that order
unfoldable pub place : String → List String → List String
place a [] = a ∷ []
place a (b ∷ bs) = let rest = place a bs in if key_before b a then b ∷ rest else a ∷ b ∷ bs

unfoldable pub sort_keys : List String → List String
sort_keys [] = []
sort_keys (a ∷ rest) = place a (sort_keys rest)
