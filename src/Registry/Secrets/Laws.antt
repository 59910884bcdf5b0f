-- ===== src/Registry/Secrets/Laws.antt =====
-- The constant-time comparison decides equality.
use Prim.Native.Nat.{bit_or, bit_xor}
use authbyte.Prelude.{ℕ, ◌≡◌, ◌↔◌, refl, false, [], ◌∷◌, length, arith}
use authbyte.Registry.Load.{Bytes}
use authbyte.Registry.Secrets.{fold_diff, subtle_mismatch}
use authbyte.Registry.Secrets.Bits.{bit_xor-eq-zero, bit_xor_self, bit_or-eq-zero}

fold_diff-eq-zero :
    (d : ℕ) (a b : Bytes) → length a ≡ length b → fold_diff d a b ≡ 0 → (d ≡ 0) × (a ≡ b)
unfolding fold_diff
fold_diff-eq-zero d [] [] h e = (e, refl)
fold_diff-eq-zero d [] (y ∷ b) h e = absurd (omega arith)
fold_diff-eq-zero d (x ∷ a) [] h e = absurd (omega arith)
fold_diff-eq-zero d (x ∷ a) (y ∷ b) h e =
    let (now, later) = fold_diff-eq-zero (bit_or d (bit_xor x y)) a b (omega arith) e in
    let (old, new) = bit_or-eq-zero d (bit_xor x y) now in
    (old, cc (bit_xor-eq-zero x y new, later))

fold_diff_self : (d : ℕ) (a : Bytes) → d ≡ 0 → fold_diff d a a ≡ 0
unfolding fold_diff
fold_diff_self d [] h = h
fold_diff_self d (x ∷ a) h = fold_diff_self (bit_or d (bit_xor x x)) a (rw (h, bit_xor_self) refl)

-- `is_zero (fold_diff 0 a b)` and `same_length a b`, as what they test
mismatch_sound :
    (n m d : ℕ) (a b : Bytes)
    → length a ≡ n
    → length b ≡ m
    → fold_diff 0 a b ≡ d
    → subtle_mismatch a b ≡ false
    → (n ≡ m) × (d ≡ 0)
unfolding subtle_mismatch
mismatch_sound n m d a b p q e h = ground arith

subtle_mismatch_self : (a : Bytes) → subtle_mismatch a a ≡ false
unfolding subtle_mismatch
subtle_mismatch_self a = ground (arith, fold_diff_self 0 a refl)

mismatch-eq : (a b : Bytes) → subtle_mismatch a b ≡ false → a ≡ b
mismatch-eq a b h =
    let (lengths, diff) = mismatch_sound _ _ _ a b refl refl refl h in
    (fold_diff-eq-zero 0 a b lengths diff).1

-- Two secrets are found to match exactly when they are the same bytes.
pub subtle_mismatch_iff : (a b : Bytes) → (subtle_mismatch a b ≡ false) ↔ (a ≡ b)
subtle_mismatch_iff a b = (mismatch-eq a b, λ e. rw e (subtle_mismatch_self b))
