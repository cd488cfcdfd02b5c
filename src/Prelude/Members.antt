-- ===== src/Prelude/Members.antt =====
-- Membership with its witness, for lists whose elements need not form a set.
use mathlib.Core.Path.{◌≡◌, sym, ap, ◌∙◌, subst}
use mathlib.Core.Logic.{◌⊎◌, inl, inr}
use mathlib.Core.Bool.{Bool, true, false}
use mathlib.Core.List.{List, [], ◌∷◌, ◌++◌, Permᴰ}
use mathlib.Core.Option.{none, some}
use native.Mathlib.Omega.{arith}
use auto_mock_tools.Prelude.Tests.{Bool-cases}
use auto_mock_tools.Prelude.Lists.{find, keep, All}
use auto_mock_tools.Prelude.Texts.{Bytes, equal, equal_iff}
use auto_mock_tools.Prelude.Maps.{Assoc, lookup, NodupKeys}

module _ {A : Type 0} where
  abbrev pub In : A → List A → Type 0
  In a [] = ⊥
  In a (x ∷ xs) = (a ≡ x) ⊎ In a xs

  pub In-perm : (a : A) {xs ys : List A} → Permᴰ xs ys → In a xs → In a ys
  In-perm a Permᴰ.nil h = h
  In-perm a (Permᴰ.cons e p) (inl h) = inl (h ∙ e)
  In-perm a (Permᴰ.cons e p) (inr h) = inr (In-perm a p h)
  In-perm a (Permᴰ.swap e f) (inl h) = inr (inl (h ∙ e))
  In-perm a (Permᴰ.swap e f) (inr (inl h)) = inl (h ∙ f)
  In-perm a (Permᴰ.swap e f) (inr (inr h)) = inr (inr h)
  In-perm a (Permᴰ.trans p q) h = In-perm a q (In-perm a p h)

  pub In-append_left : (a : A) (xs ys : List A) → In a xs → In a (xs ++ ys)
  In-append_left a [] ys h = elim h [ ]
  In-append_left a (x ∷ xs) ys (inl h) = inl h
  In-append_left a (x ∷ xs) ys (inr h) = inr (In-append_left a xs ys h)

  pub In-append_right : (a : A) (xs ys : List A) → In a ys → In a (xs ++ ys)
  In-append_right a [] ys h = h
  In-append_right a (x ∷ xs) ys h = inr (In-append_right a xs ys h)

  pub All-In : (P : A → Type 0) (a : A) (xs : List A) → All P xs → In a xs → P a
  All-In P a [] h i = elim i [ ]
  All-In P a (x ∷ xs) h (inl e) = subst P (sym e) h.0
  All-In P a (x ∷ xs) h (inr i) = All-In P a xs h.1 i

  pub All-perm : (P : A → Type 0) {xs ys : List A} → Permᴰ xs ys → All P xs → All P ys
  All-perm P Permᴰ.nil h = tt
  All-perm P (Permᴰ.cons e p) h = (subst P e h.0, All-perm P p h.1)
  All-perm P (Permᴰ.swap e f) h = (subst P f h.1.0, (subst P e h.0, h.1.1))
  All-perm P (Permᴰ.trans p q) h = All-perm P q (All-perm P p h)

  module _ (p : A → Bool) where
    pub In-keep : (a : A) (xs : List A) → In a xs → p a ≡ true → In a (keep p xs)
    In-keep a [] h e = elim h [ ]
    In-keep a (x ∷ xs) (inl h) e = let e' : p x ≡ true = sym (ap p h) ∙ e in rw e' (inl h)
    In-keep a (x ∷ xs) (inr h) e = elim (Bool-cases (p x)) [
      | inl kept ↦ rw kept (inr (In-keep a xs h e))
      | inr dropped ↦ rw dropped (In-keep a xs h e)
    ]

    pub keep-In : (a : A) (xs : List A) → In a (keep p xs) → In a xs × (p a ≡ true)
    keep-In a [] h = elim h [ ]
    keep-In a (x ∷ xs) h = elim (Bool-cases (p x)) [
      | inl kept ↦ elim (rw kept at h) [
        | inl e ↦ (inl e, ap p e ∙ kept)
        | inr i ↦ let r = keep-In a xs i in (inr r.0, r.1)
      ]
      | inr dropped ↦ let r = keep-In a xs (rw dropped at h) in (inr r.0, r.1)
    ]

    pub find-eq-some : (a : A) (xs : List A) → find p xs ≡ some a → In a xs × (p a ≡ true)
    find-eq-some a [] h = cc
    find-eq-some a (x ∷ xs) h = elim (Bool-cases (p x)) [
      | inl found ↦ let e : some x ≡ some a = rw found at h in (inl cc, cc)
      | inr other ↦ let r = find-eq-some a xs (rw other at h) in (inr r.0, r.1)
    ]

    pub find-eq-none : (a : A) (xs : List A) → find p xs ≡ none → In a xs → p a ≡ false
    find-eq-none a [] h i = elim i [ ]
    find-eq-none a (x ∷ xs) h i = elim (Bool-cases (p x)) [
      | inl found ↦ let e : some x ≡ none = rw found at h in cc
      | inr other ↦ elim i [
        | inl e ↦ ap p e ∙ other
        | inr i' ↦ find-eq-none a xs (rw other at h) i'
      ]
    ]

module _ {V : Type 0} where
  pub In-lookup :
      (k : Bytes) (v : V) (m : Assoc V) → NodupKeys m → In (k, v) m → lookup k m ≡ some v
  unfolding lookup
  In-lookup k v [] h i = elim i [ ]
  In-lookup k v ((j, w) ∷ m) h (inl e) =
      let k≡j : k ≡ j = ap (λ (t : Bytes × V). t.0) e in
      let v≡w : v ≡ w = ap (λ (t : Bytes × V). t.1) e in ground (arith, equal_iff j k)
  In-lookup k v ((j, w) ∷ m) h (inr i) = ground (arith, equal_iff j k, In-lookup k v m h.1 i)

  pub lookup-In : (k : Bytes) (v : V) (m : Assoc V) → lookup k m ≡ some v → In (k, v) m
  unfolding lookup
  lookup-In k v [] h = cc
  lookup-In k v ((j, w) ∷ m) h = elim (Bool-cases (equal j k)) [
    | inl same ↦
        let j≡k : j ≡ k = (equal_iff j k).0 same in
        let w≡v : some w ≡ some v = rw same at h in inl (ground arith)
    | inr other ↦ inr (lookup-In k v m (rw other at h))
  ]
