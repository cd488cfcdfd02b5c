-- ===== src/Ascii.antt =====
-- pkg/storage/storage.go and pkg/handlers/handlers.go: the byte helpers `trimSpaceASCII`,
-- `toLowerASCIISimple` and `equalFoldBytes`.
pub mod Trim
pub mod Fold
use auto_mock_tools.Prelude.{
  ℕ, zero, suc, ◌+◌, ◌-◌, ◌%◌, ◌^◌, Bool, true, false, not, ◌&&◌, ◌||◌, List, [], ◌∷◌, map, ◌==◌,
  leb, if◌then◌else◌, Bytes, length, get_or, take, drop,
}

-- the test of both loops of `trimSpaceASCII`
unfoldable pub is_space : ℕ → Bool
is_space c = c == b' ' || c == b'\t' || c == b'\r' || c == b'\n'

-- `for start < end && blank(s[start]) { start++ }`, with `end - start` rounds left
trim_leading : Bytes → ℕ → ℕ → ℕ
trim_leading s start zero = start
trim_leading s start (suc n) =
    let rest = trim_leading s (start + 1) n in if is_space (get_or s start 0) then rest else start

-- `for start < end && blank(s[end-1]) { end-- }`, with `end - start` rounds left
trim_trailing : Bytes → ℕ → ℕ → ℕ
trim_trailing s start zero = start
trim_trailing s start (suc n) =
    let rest = trim_trailing s start n in
    if is_space (get_or s (start + n) 0) then rest else start + suc n

-- `s[i:j]`
abbrev slice : Bytes → ℕ → ℕ → Bytes
slice s i j = take (j - i) (drop i s)

unfoldable pub trim_space_ascii : Bytes → Bytes
unfolding trim_leading trim_trailing is_space
trim_space_ascii s =
    let start = trim_leading s 0 (length s) in
    slice s start (trim_trailing s start (length s - start))

-- `c >= 'A' && c <= 'Z'`
is_upper : ℕ → Bool
is_upper c = leb b'A' c && leb c b'Z'

-- `c + ('a' - 'A')` on a `byte`
unfoldable pub lower_byte : ℕ → ℕ
unfolding is_upper
lower_byte c = if is_upper c then (c + 32) % 2 ^ 8 else c

unfoldable pub to_lower_ascii_simple : Bytes → Bytes
unfolding lower_byte
to_lower_ascii_simple = map lower_byte

-- the loop of `equalFoldBytes`, over slices of one length
equal_fold_from : Bytes → Bytes → Bool
equal_fold_from (x ∷ a) (y ∷ b) =
    if not (lower_byte x == lower_byte y) then false else equal_fold_from a b
equal_fold_from _ _ = true

unfoldable pub equal_fold_bytes : Bytes → Bytes → Bool
unfolding equal_fold_from lower_byte
equal_fold_bytes a b = if not (length a == length b) then false else equal_fold_from a b
