-- ===== src/Ascii/Fold.antt =====
-- `equalFoldBytes` against lower-casing both sides.
use auto_mock_tools.Prelude.{ℕ, ◌≡◌, ◌↔◌, true, [], ◌∷◌, arith, Bytes}
use auto_mock_tools.Ascii.{lower_byte, to_lower_ascii_simple, equal_fold_bytes}

-- equalFoldBytes answers true exactly when the two slices are equal after toLowerASCIISimple.
pub equal_fold_bytes_iff :
    (a b : Bytes)
    → (equal_fold_bytes a b ≡ true) ↔ (to_lower_ascii_simple a ≡ to_lower_ascii_simple b)
unfolding equal_fold_bytes to_lower_ascii_simple
equal_fold_bytes_iff [] [] = ground arith
equal_fold_bytes_iff [] (y ∷ b) = ground arith
equal_fold_bytes_iff (x ∷ a) [] = ground arith
equal_fold_bytes_iff (x ∷ a) (y ∷ b) = ground (arith, equal_fold_bytes_iff a b)

-- Lower-casing a second time changes nothing.
pub lower_byte_idem : (c : ℕ) → lower_byte (lower_byte c) ≡ lower_byte c
unfolding lower_byte
lower_byte_idem c = ground arith
