-- ===== src/Registry/Secrets.antt =====
-- registry/registry.go: subtleMismatch, the comparison of two secrets over all their bytes.
mod Bits
pub mod Laws
use Prim.Native.Nat.{bit_or, bit_xor}
use authbyte.Prelude.{ℕ, Bool, true, false, not, List, [], ◌∷◌, length, leb, ◌&&◌, if◌then◌else◌}
use authbyte.Registry.Load.{Bytes}

-- the loop from index 0; the lengths are equal where it runs
unfoldable pub fold_diff : ℕ → Bytes → Bytes → ℕ
fold_diff diff [] bs = diff
fold_diff diff (a ∷ as') [] = diff
fold_diff diff (a ∷ as') (b ∷ bs) = fold_diff (bit_or diff (bit_xor a b)) as' bs

abbrev pub is_zero : ℕ → Bool
is_zero n = leb n 0

abbrev pub same_length : Bytes → Bytes → Bool
same_length a b = leb (length a) (length b) && leb (length b) (length a)

unfoldable pub subtle_mismatch : Bytes → Bytes → Bool
unfolding fold_diff
subtle_mismatch a b = if not (same_length a b) then true else not (is_zero (fold_diff 0 a b))
