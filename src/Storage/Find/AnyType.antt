-- ===== src/Storage/Find/AnyType.antt =====
-- `FindResponseBytesAnyContentType`, for any order in which the map is visited.
use mathlib.Core.List.{append_assoc}
use mathlib.Core.List.Permᴰ
use auto_mock_tools.Prelude.{
  ◌≡◌, refl, sym, ap, ◌∙◌, subst, true, false, inl, inr, Bool-cases, List, [], ◌∷◌, ◌++◌, Option,
  none, some, Option-cases, arith, Bytes, Assoc, has_prefix, has_prefix-inv, has_prefix-append, In,
  In-perm, keep-In, All, All-In, find-eq-some, find-eq-none, equal, equal_iff, or_else,
}
use auto_mock_tools.Host.{Host}
use auto_mock_tools.Storage.Types.{MockResponse, MockStorage}
use auto_mock_tools.Storage.Keys.{make_index_key}
use auto_mock_tools.Storage.Keys.Injective.{make_index_key_injective}
use auto_mock_tools.Storage.Index.{response_key}
use auto_mock_tools.Storage.Index.Buckets.{index_sound, index_complete}
use auto_mock_tools.Storage.Find.{pick, find_any_from, find_response_bytes_any_content_type}
use auto_mock_tools.Storage.Find.Catalog.{accepts, NoPipe, Readable, Indexes}
use auto_mock_tools.Storage.Find.Exact.{pick-eq-find}

or_else-eq-none {ℓ} : {A : Type ℓ} (o next : Option A) → or_else o next ≡ none → o ≡ none
or_else-eq-none none next h = refl
or_else-eq-none (some a) next h = cc

or_else-eq-none_right {ℓ} : {A : Type ℓ} (o next : Option A) → or_else o next ≡ none → next ≡ none
or_else-eq-none_right none next h = h
or_else-eq-none_right (some a) next h = cc

module _ {F : Type 0} (prefix method : Bytes) where
  -- An answer comes from an entry whose key has the prefix.
  find_any_from_sound :
      (order : Assoc (List (MockResponse F))) (r : MockResponse F)
      → find_any_from prefix method order ≡ some r
      → (k : Bytes) × (us : List (MockResponse F)) × In (k, us) order
        × (has_prefix prefix k ≡ true)
        × (pick method us ≡ some r)
  unfolding find_any_from
  find_any_from_sound [] r h = cc
  find_any_from_sound ((k, us) ∷ rest) r h = elim (Bool-cases (has_prefix prefix k)) [
    | inl fits ↦ elim (Option-cases (pick method us)) [
      | inr (c, picked) ↦ (k, us, inl refl, fits, ground arith)
      | inl nothing ↦
          let (j, vs, i, e, p) = find_any_from_sound rest r (ground arith) in (j, vs, inr i, e, p)
    ]
    | inr other ↦
        let (j, vs, i, e, p) = find_any_from_sound rest r (ground arith) in (j, vs, inr i, e, p)
  ]

  -- Where there is no answer, no entry whose key has the prefix gives one.
  find_any_from_complete :
      (order : Assoc (List (MockResponse F)))
      → find_any_from prefix method order ≡ none
      → (k : Bytes) (us : List (MockResponse F)) → In (k, us) order
      → has_prefix prefix k ≡ true
      → pick method us ≡ none
  unfolding find_any_from
  find_any_from_complete [] h k us i e = elim i [ ]
  find_any_from_complete ((j, vs) ∷ rest) h k us (inl same) e =
      let k≡j : k ≡ j = ap (λ (t : Bytes × List (MockResponse F)). t.0) same in
      let us≡vs : us ≡ vs = ap (λ (t : Bytes × List (MockResponse F)). t.1) same in
      let fits : has_prefix prefix j ≡ true = rw (← k≡j) e in
      rw us≡vs (or_else-eq-none _ _ (rw fits at h))
  find_any_from_complete ((j, vs) ∷ rest) h k us (inr i) e =
      find_any_from_complete rest (ground arith) k us i e

module _ {F Op : Type 0} (host : Host F) (rs : List (MockResponse F)) (s : MockStorage F Op) where
  -- the prefix that the code builds, with the rest of a key behind it
  key-prefix :
      (p m c : Bytes) → make_index_key p m c ≡ (([] ++ p ++ b'|' ∷ []) ++ m ++ b'|' ∷ []) ++ c
  unfolding make_index_key
  key-prefix p m c = simp append_assoc

  find_any_key :
      (p m method : Bytes) (r : MockResponse F)
      → Indexes rs s
      → find_response_bytes_any_content_type host s p m method ≡ some r
      → In r rs
        × (accepts method r ≡ true)
        × ((rest : Bytes) × (response_key r ≡ make_index_key p m rest))
  unfolding find_response_bytes_any_content_type
  find_any_key p m method r h found =
      let (k, us, i, fits, picked) = find_any_from_sound _ method _ r found in
      let stored = In-perm (k, us) (host.visit-perm _ s.responses) i in
      let stored = subst (In (k, us)) h.by_key stored in
      let us-eq = index_sound response_key k us rs stored in
      let first = sym (pick-eq-find method us) ∙ picked in
      let (i', accepted) = find-eq-some (accepts method) r us first in
      let (i'', same) = keep-In (λ x. equal (response_key x) k) r rs (rw us-eq at i') in
      let (rest, e) = has_prefix-inv _ k fits in
      (i'', accepted, (rest, (equal_iff (response_key r) k).0 same ∙ e ∙ sym (key-prefix p m rest)))

  pub find_any-In :
      (p m method : Bytes) (r : MockResponse F)
      → Indexes rs s
      → find_response_bytes_any_content_type host s p m method ≡ some r
      → In r rs
  find_any-In p m method r h found = (find_any_key p m method r h found).0

  -- For every order in which the map is visited, an answer of FindResponseBytesAnyContentType is
  -- a loaded response with the path and the mock id of the request that accepts the method, if no
  -- path or mock id holds a '|'.
  pub find_any_sound :
      (p m method : Bytes) (r : MockResponse F)
      → Indexes rs s
      → All Readable rs
      → NoPipe p m
      → find_response_bytes_any_content_type host s p m method ≡ some r
      → In r rs × (r.path ≡ p) × (r.mock_id ≡ m) × (accepts method r ≡ true)
  find_any_sound p m method r h readable n found =
      let (i, accepted, (rest, e)) = find_any_key p m method r h found in
      let own = All-In Readable r rs readable i in
      let (path, mock, _) =
        make_index_key_injective r.path r.mock_id r.content_type p m rest own.of_path own.of_mock_id
          n.of_path n.of_mock_id e in
      (i, path, mock, accepted)

  -- If FindResponseBytesAnyContentType has no answer, no loaded response with the path and the
  -- mock id of the request accepts the method, for every order in which the map is visited.
  pub find_any_complete :
      (p m method : Bytes) (r : MockResponse F)
      → Indexes rs s
      → find_response_bytes_any_content_type host s p m method ≡ none
      → In r rs
      → r.path ≡ p
      → r.mock_id ≡ m
      → accepts method r ≡ false
  unfolding find_response_bytes_any_content_type
  find_any_complete p m method r h missing i path mock =
      let (us, stored, i') = index_complete response_key r rs i in
      let e =
        ap (λ x. make_index_key x r.mock_id r.content_type) path
        ∙ ap (λ x. make_index_key p x r.content_type) mock
        ∙ key-prefix p m r.content_type in
      let visited =
        In-perm (response_key r, us) (Permᴰ.symm (host.visit-perm _ s.responses))
          (rw (← h.by_key) at stored) in
      let nothing =
        find_any_from_complete _ method _ missing (response_key r) us visited
          (rw e (has_prefix-append _ r.content_type)) in
      find-eq-none (accepts method) r us (sym (pick-eq-find method us) ∙ nothing) i'
