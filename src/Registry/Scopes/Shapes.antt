-- ===== src/Registry/Scopes/Shapes.antt =====
-- What tells a box from a level: a scope is never both, and neither has a space in it.
use Prim.Native.String.{String}
use authbyte.Prelude.{ℕ, ◌≡◌, Bool, true, false, List, [], ◌∷◌, any, arith}
use authbyte.Registry.Scopes.{codes, is_code, is_space, cut, is_box, is_level}

-- What stands before the separator stands in the whole.
any-cut :
    (p : ℕ → Bool) (sep : ℕ) (cs : List ℕ) → any p (cut sep cs).before ≡ true → any p cs ≡ true
unfolding cut
any-cut p sep [] h = ground arith
any-cut p sep (c ∷ cs) h = ground (arith, any-cut p sep cs)

-- A scope that is a box is no level, so what a token's boxes are narrowed by never touches its
-- levels, and the other way round.
pub is_box-is_level : (s : String) → is_box s ≡ true → is_level s ≡ false
unfolding is_box is_level
is_box-is_level s h = ground (arith, any-cut (λ (c : ℕ). is_code b'/' c) b':' (codes s))

-- A box has no space in it.
pub is_box-spaceless : (s : String) → is_box s ≡ true → any is_space (codes s) ≡ false
unfolding is_box
is_box-spaceless s h = ground arith

-- Nor has a level.
pub is_level-spaceless : (s : String) → is_level s ≡ true → any is_space (codes s) ≡ false
unfolding is_level
is_level-spaceless s h = ground arith
