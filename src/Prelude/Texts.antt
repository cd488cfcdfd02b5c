-- ===== src/Prelude/Texts.antt =====
-- Go strings and byte slices, as lists of byte values.
use Prim.Native.Nat.{ℕ}
use Prim.Native.Char.{code}
use Prim.Native.String.{String}
use mathlib.Core.Path.{◌≡◌, refl}
use mathlib.Core.Logic.{◌↔◌}
use mathlib.Core.Bool.{Bool, true, false, ◌&&◌, ◌||◌}
use mathlib.Core.List.{List, [], ◌∷◌, ◌++◌}
use native.Mathlib.Omega.{arith}
use auto_mock_tools.Prelude.Tests.{◌==◌, if◌then◌else◌}

abbrev pub Bytes : Type 0
Bytes = List ℕ

-- The bytes of an ASCII literal.
abbrev pub codes : String → Bytes
codes String.[] = []
codes (String.◌∷◌ c s) = code c ∷ codes s

-- `bytes.Equal`, and `==` on strings
unfoldable pub equal : Bytes → Bytes → Bool
equal [] [] = true
equal (x ∷ xs) (y ∷ ys) = x == y && equal xs ys
equal _ _ = false

pub equal_iff : (s t : Bytes) → (equal s t ≡ true) ↔ (s ≡ t)
unfolding equal
equal_iff [] [] = ground arith
equal_iff [] (d ∷ t) = ground arith
equal_iff (c ∷ s) [] = ground arith
equal_iff (c ∷ s) (d ∷ t) = ground (arith, equal_iff s t)

pub equal_refl : (a : Bytes) → equal a a ≡ true
equal_refl a = (equal_iff a a).1 refl

-- `len(s) == 0`
abbrev pub is_empty : Bytes → Bool
is_empty [] = true
is_empty (c ∷ cs) = false

-- membership in a `map[string]bool` that is only ever read
unfoldable pub contains : List Bytes → Bytes → Bool
contains [] k = false
contains (x ∷ xs) k = equal x k || contains xs k

-- `bytes.IndexByte(s, c) >= 0`
unfoldable pub has_byte : ℕ → Bytes → Bool
has_byte c [] = false
has_byte c (d ∷ s) = d == c || has_byte c s

-- `if idx := bytes.IndexByte(s, c); idx >= 0 { s = s[:idx] }`
unfoldable pub cut_at : ℕ → Bytes → Bytes
cut_at c [] = []
cut_at c (d ∷ s) = if d == c then [] else d ∷ cut_at c s

pub has_byte-cut_at : (c : ℕ) (s : Bytes) → has_byte c (cut_at c s) ≡ false
unfolding has_byte cut_at
has_byte-cut_at c [] = refl
has_byte-cut_at c (d ∷ s) = ground (arith, has_byte-cut_at c s)

pub cut_at_eq_self : (c : ℕ) (s : Bytes) → has_byte c s ≡ false → cut_at c s ≡ s
unfolding has_byte cut_at
cut_at_eq_self c [] h = refl
cut_at_eq_self c (d ∷ s) h = ground (arith, cut_at_eq_self c s)

-- A separator that does not occur in the first parts splits a text in one way.
pub append-separator_injective :
    (c : ℕ) (a b s t : Bytes)
    → has_byte c a ≡ false
    → has_byte c b ≡ false
    → a ++ c ∷ s ≡ b ++ c ∷ t
    → (a ≡ b) × (s ≡ t)
unfolding has_byte
append-separator_injective c [] [] s t h k e = ground arith
append-separator_injective c [] (y ∷ b) s t h k e = ground arith
append-separator_injective c (x ∷ a) [] s t h k e = ground arith
append-separator_injective c (x ∷ a) (y ∷ b) s t h k e =
    ground (arith, append-separator_injective c a b s t)

-- `strings.HasPrefix(s, prefix)`, and the byte-by-byte comparison of `FindResponseBytesAnyContentType`
unfoldable pub has_prefix : Bytes → Bytes → Bool
has_prefix [] s = true
has_prefix (c ∷ p) [] = false
has_prefix (c ∷ p) (d ∷ s) = c == d && has_prefix p s

pub has_prefix-append : (p s : Bytes) → has_prefix p (p ++ s) ≡ true
unfolding has_prefix
has_prefix-append [] s = refl
has_prefix-append (c ∷ p) s = ground (arith, has_prefix-append p s)

pub has_prefix-inv : (p s : Bytes) → has_prefix p s ≡ true → (r : Bytes) × (s ≡ p ++ r)
unfolding has_prefix
has_prefix-inv [] s h = (s, refl)
has_prefix-inv (c ∷ p) [] h = cc
has_prefix-inv (c ∷ p) (d ∷ s) h =
    let (r, e) = has_prefix-inv p s (ground arith) in (r, ground arith)
