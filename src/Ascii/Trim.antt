-- ===== src/Ascii/Trim.antt =====
-- `trimSpaceASCII` against a reference by recursion on the bytes.
use auto_mock_tools.Prelude.{
  ℕ, zero, suc, ◌+◌, ◌-◌, ◌≤◌, ◌<◌, ◌≡◌, refl, sym, ap, ◌∙◌, false, ◌&&◌, inl, inr, [], ◌∷◌, ◌++◌,
  if◌then◌else◌, Bool-cases, arith, Bytes, is_empty, length, get_or, take, drop, length-drop,
  take-length,
}
use native.Mathlib.Nat.{zero-add}
use native.Mathlib.Numerals.{add-one}
use auto_mock_tools.Ascii.{is_space, trim_leading, trim_trailing, trim_space_ascii}

-- The bytes from the first one that is no blank.
abbrev pub strip_start : Bytes → Bytes
strip_start [] = []
strip_start (c ∷ cs) = if is_space c then strip_start cs else c ∷ cs

-- The bytes up to the last one that is no blank.
abbrev pub strip_end : Bytes → Bytes
strip_end [] = []
strip_end (c ∷ cs) = let r = strip_end cs in if is_empty r && is_space c then [] else c ∷ r

is_empty-snoc : (xs : Bytes) (c : ℕ) → is_empty (xs ++ c ∷ []) ≡ false
is_empty-snoc [] c = refl
is_empty-snoc (x ∷ xs) c = refl

strip_end-snoc :
    (xs : Bytes) (c : ℕ)
    → strip_end (xs ++ c ∷ []) ≡ (if is_space c then strip_end xs else xs ++ c ∷ [])
strip_end-snoc [] c = ground arith
strip_end-snoc (x ∷ xs) c = ground (arith, strip_end-snoc xs c, is_empty-snoc xs c)

get_or-drop : (s : Bytes) (i n : ℕ) → get_or (drop i s) n 0 ≡ get_or s (i + n) 0
get_or-drop s zero n = rw zero-add
get_or-drop [] (suc i) n = refl
get_or-drop (c ∷ s) (suc i) n =
    let e : suc i + n ≡ suc (i + n) = omega arith in rw e (get_or-drop s i n)

drop-suc : (s cs : Bytes) (i c : ℕ) → drop i s ≡ c ∷ cs → drop (suc i) s ≡ cs
drop-suc [] cs zero c h = cc
drop-suc (x ∷ s) cs zero c h = cc
drop-suc [] cs (suc i) c h = cc
drop-suc (x ∷ s) cs (suc i) c h = drop-suc s cs i c h

take-suc : (cs : Bytes) (n : ℕ) → n < length cs → take (suc n) cs ≡ take n cs ++ get_or cs n 0 ∷ []
take-suc [] n h = elim h [ ]
take-suc (c ∷ cs) zero h = refl
take-suc (c ∷ cs) (suc n) h = ap (◌∷◌ c) (take-suc cs n (omega arith))

get_or-head : (s cs : Bytes) (i c : ℕ) → drop i s ≡ c ∷ cs → get_or s i 0 ≡ c
get_or-head s cs i c h =
    let e : i + 0 ≡ i = omega arith in
    ap (λ j. get_or s j 0) (sym e) ∙ sym (get_or-drop s i 0) ∙ ap (λ (t : Bytes). get_or t 0 0) h

drop-trim_leading :
    (s cs : Bytes) (i : ℕ) → drop i s ≡ cs → drop (trim_leading s i (length cs)) s ≡ strip_start cs
unfolding trim_leading
drop-trim_leading s [] i h = h
drop-trim_leading s (c ∷ cs) i h = rw (get_or-head s cs i c h) (elim (Bool-cases (is_space c)) [
  | inl blank ↦ rw blank (drop-trim_leading s cs (i + 1) (rw add-one (drop-suc s cs i c h)))
  | inr other ↦ rw other h
])

take-trim_trailing :
    (s : Bytes) (i n : ℕ)
    → n ≤ length (drop i s)
    → take (trim_trailing s i n - i) (drop i s) ≡ strip_end (take n (drop i s))
unfolding trim_trailing
take-trim_trailing s i zero h = let e : i - i ≡ 0 = omega arith in rw e
take-trim_trailing s i (suc n) h =
    let e : i + suc n - i ≡ suc n = omega arith in
    let snoc = take-suc (drop i s) n h in
    rw (snoc, strip_end-snoc, get_or-drop)
      (elim (Bool-cases (is_space (get_or s (i + n) 0))) [
        | inl blank ↦ rw blank (take-trim_trailing s i n (omega arith))
        | inr other ↦ rw other (rw e (rw snoc (rw get_or-drop)))
      ])

-- The index loops of trimSpaceASCII cut exactly the blanks off both ends, as a recursion on the
-- bytes does.
pub trim_space_ascii_strip : (s : Bytes) → trim_space_ascii s ≡ strip_end (strip_start s)
unfolding trim_space_ascii
trim_space_ascii_strip s =
    let start = trim_leading s 0 (length s) in
    let rest = drop-trim_leading s s 0 refl in
    let n = length-drop start s in
    take-trim_trailing s start (length s - start) (omega (arith, n))
    ∙ rw (← n) (rw take-length (rw rest))
