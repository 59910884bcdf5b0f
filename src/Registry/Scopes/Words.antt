-- ===== src/Registry/Scopes/Words.antt =====
-- A token's scope text is read back as the scopes that were joined into it.
use Prim.Native.String.{String, ◌++◌}
use Prim.Native.String.append
use text.Mathlib.TextLemmas.{append-nil}
use authbyte.Prelude.{
  ◌≡◌, refl, true, false, List, [], ◌∷◌, All, any, arith, inl, inr, ◌⊎◌, is_empty,
}
use authbyte.Registry.Scopes.{
  codes, cut, is_space, is_box, is_level, push, words, parse_scope_string, join,
}
use authbyte.Registry.Scopes.Shapes.{is_box-spaceless, is_level-spaceless}

-- A word without spaces goes in front of the first word of what follows.
words-append :
    (a t : String)
    → any is_space (codes a) ≡ false
    → words (a ++ t) ≡ (a ++ (words t).0, (words t).1)
unfolding words
words-append String.[] t h = rw (append.nil t, append.nil (words t).0) refl
words-append (String.◌∷◌ c a) t h =
    ground (arith, words-append a t, append.cons c a t, append.cons c a (words t).0)

words-spaceless : (a : String) → any is_space (codes a) ≡ false → words a ≡ (a, [])
unfolding words
words-spaceless String.[] h = refl
words-spaceless (String.◌∷◌ c a) h = ground (arith, words-spaceless a)

words-space : (t : String) → words (" " ++ t) ≡ ("", parse_scope_string t)
unfolding words parse_scope_string is_space
words-space t = rw (append.cons, append.nil) refl

abbrev IsWord : String → Type 0
IsWord s = (any is_space (codes s) ≡ false) × (is_empty (codes s) ≡ false)

push-word : (s : String) (rest : List String) → IsWord s → push s rest ≡ s ∷ rest
push-word String.[] rest h = cc
push-word (String.◌∷◌ c s) rest h = refl

parse-word :
    (s : String) (rest : List String)
    → IsWord s
    → words s ≡ (s, rest)
    → parse_scope_string s ≡ s ∷ rest
unfolding parse_scope_string
parse-word s rest h e = rw e (push-word s rest h)

-- Joined words are read back, each as it was.
parse-join_words :
    (scopes : List String) → All IsWord scopes → parse_scope_string (join scopes) ≡ scopes
unfolding parse_scope_string join
parse-join_words [] h = refl
parse-join_words (s ∷ []) h = rw (words-spaceless s h.0.0) (push-word s [] h.0)
parse-join_words (s ∷ t ∷ ts) h =
    rw
      (
        words-append s (" " ++ join (t ∷ ts)) h.0.0,
        words-space,
        append-nil,
        parse-join_words (t ∷ ts) h.1,
      )
      (push-word s (t ∷ ts) h.0)

-- A box or a level.
abbrev pub IsScope : String → Type 0
IsScope s = (is_box s ≡ true) ⊎ (is_level s ≡ true)

is_box_nonempty : (s : String) → is_box s ≡ true → is_empty (codes s) ≡ false
unfolding is_box cut
is_box_nonempty String.[] h = cc
is_box_nonempty (String.◌∷◌ c s) h = refl

is_level_nonempty : (s : String) → is_level s ≡ true → is_empty (codes s) ≡ false
unfolding is_level cut
is_level_nonempty String.[] h = cc
is_level_nonempty (String.◌∷◌ c s) h = refl

IsScope-IsWord : (scopes : List String) → All IsScope scopes → All IsWord scopes
IsScope-IsWord [] h = tt
IsScope-IsWord (s ∷ ss) (inl b, h) =
    ((is_box-spaceless s b, is_box_nonempty s b), IsScope-IsWord ss h)
IsScope-IsWord (s ∷ ss) (inr l, h) =
    ((is_level-spaceless s l, is_level_nonempty s l), IsScope-IsWord ss h)

-- Scopes that are each a box or a level, joined by spaces into a token's scope text, are read back
-- from that text as they were, in the same order.
pub parse-join :
    (scopes : List String) → All IsScope scopes → parse_scope_string (join scopes) ≡ scopes
parse-join scopes h = parse-join_words scopes (IsScope-IsWord scopes h)
