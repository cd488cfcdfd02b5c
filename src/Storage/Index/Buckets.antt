-- ===== src/Storage/Index/Buckets.antt =====
-- The indexes hold, at each key, the loaded responses with that key in load order.
use mathlib.Core.List.{append-nil, append_assoc}
use auto_mock_tools.Prelude.{
  ◌≡◌, refl, sym, ap, ◌∙◌, List, [], ◌∷◌, ◌++◌, Option, none, some, arith, Bytes, equal, equal_iff,
  Assoc, lookup, lookup-insert, lookup_nil, equal_refl, keep, In, In-keep, In-lookup, lookup-In,
  keep-append, NodupKeys, insert-NodupKeys,
}
use auto_mock_tools.Storage.Index.{or_nil, slice_at, append_at}

In-or_nil :
    {V : Type 0} (v : V) (o : Option (List V))
    → In v (or_nil o)
    → (us : List V) × (o ≡ some us) × In v us
In-or_nil v none i = elim i [ ]
In-or_nil v (some us) i = (us, refl, i)

-- A slice that holds something is there.
In-slice_at :
    {V : Type 0} (k : Bytes) (v : V) (m : Assoc (List V))
    → In v (slice_at k m)
    → (us : List V) × (lookup k m ≡ some us) × In v us
In-slice_at k v m = In-or_nil v (lookup k m)

module _ {V : Type 0} (key : V → Bytes) where
  -- one key's share of a list, and no entry where it is empty
  abbrev pub bucket : Bytes → List V → List V
  bucket k = keep (λ v. equal (key v) k)

  abbrev pub append_all : Assoc (List V) → List V → Assoc (List V)
  append_all m [] = m
  append_all m (v ∷ vs) = append_all (append_at (key v) v m) vs

  lookup-append_at :
      (k : Bytes) (v : V) (m : Assoc (List V))
      → slice_at k (append_at (key v) v m) ≡ slice_at k m ++ bucket k (v ∷ [])
  unfolding append_at
  lookup-append_at k v m = ground (
    arith,
    lookup-insert (key v) k (slice_at (key v) m ++ v ∷ []) m,
    equal_iff (key v) k,
    append-nil (slice_at k m),
  )

  pub slice_at-append_all :
      (k : Bytes) (m : Assoc (List V)) (vs : List V)
      → slice_at k (append_all m vs) ≡ slice_at k m ++ bucket k vs
  slice_at-append_all k m [] = sym (append-nil _)
  slice_at-append_all k m (v ∷ vs) =
      slice_at-append_all k (append_at (key v) v m) vs
      ∙ rw lookup-append_at (
          append_assoc (slice_at k m) (bucket k (v ∷ [])) (bucket k vs)
          ∙ ap (◌++◌ (slice_at k m)) (sym (keep-append (λ x. equal (key x) k) (v ∷ []) vs)))

  append_all-NodupKeys :
      (m : Assoc (List V)) (vs : List V) → NodupKeys m → NodupKeys (append_all m vs)
  append_all-NodupKeys m [] h = h
  append_all-NodupKeys m (v ∷ vs) h =
      append_all-NodupKeys (append_at (key v) v m) vs
        (unfold append_at in insert-NodupKeys (key v) (slice_at (key v) m ++ v ∷ []) m h)

  -- the index of a list, from an empty map
  abbrev pub index : List V → Assoc (List V)
  index = append_all []

  -- What stands at a key is that key's share of the list.
  pub slice_at-index : (k : Bytes) (vs : List V) → slice_at k (index vs) ≡ bucket k vs
  slice_at-index k vs =
      slice_at-append_all k [] vs
      ∙ ap (λ (o : Option (List V)). or_nil o ++ bucket k vs) (lookup_nil k)

  -- Every entry of the map is its key's share of the list.
  pub index_sound : (k : Bytes) (us vs : List V) → In (k, us) (index vs) → us ≡ bucket k vs
  index_sound k us vs i =
      let at = In-lookup k us (index vs) (append_all-NodupKeys [] vs tt) i in
      ap or_nil (sym at) ∙ slice_at-index k vs

  -- Every element of the list is in the entry of its key.
  pub index_complete :
      (v : V) (vs : List V) → In v vs → (us : List V) × In (key v, us) (index vs) × In v us
  index_complete v vs i =
      let kept = In-keep (λ u. equal (key u) (key v)) v vs i (equal_refl (key v)) in
      let (us, at, j) = In-slice_at (key v) v (index vs) (rw slice_at-index kept) in
      (us, lookup-In (key v) us (index vs) at, j)

  pub index-append :
      (m : Assoc (List V)) (us vs : List V)
      → append_all m (us ++ vs) ≡ append_all (append_all m us) vs
  index-append m [] vs = refl
  index-append m (u ∷ us) vs = index-append (append_at (key u) u m) us vs
