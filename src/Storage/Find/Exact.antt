-- ===== src/Storage/Find/Exact.antt =====
-- `FindResponseBytes` is a search of the load order.
use auto_mock_tools.Prelude.{
  ◌≡◌, refl, sym, ap, ◌∙◌, ◌&&◌, List, [], ◌∷◌, Option, none, some, arith, Bytes, equal, equal_iff,
  find, find-keep, find-cong, All, All-map, lookup, In, find-eq-some,
}
use auto_mock_tools.Storage.Types.{MockResponse, MockStorage}
use auto_mock_tools.Storage.Keys.{make_index_key, make_index_key_from_bytes}
use auto_mock_tools.Storage.Keys.Injective.{make_index_key_from_bytes_lem, make_index_key_injective}
use auto_mock_tools.Storage.Index.{or_nil, slice_at, response_key}
use auto_mock_tools.Storage.Index.Buckets.{bucket, slice_at-index}
use auto_mock_tools.Storage.Find.{pick, normalize, find_response_bytes}
use auto_mock_tools.Storage.Find.Catalog.{accepts, serves, NoPipe, Readable, Indexes}

module _ {F : Type 0} where
  -- With no method the first candidate is taken.
  pub pick-eq-find :
      (method : Bytes) (cs : List (MockResponse F)) → pick method cs ≡ find (accepts method) cs
  unfolding pick
  pick-eq-find method [] = refl
  pick-eq-find [] (c ∷ cs) = refl
  pick-eq-find (x ∷ method) (c ∷ cs) = refl

  pick-or_nil :
      (method : Bytes) (o : Option (List (MockResponse F)))
      → (elim o [ none ↦ none | some cs ↦ pick method cs ]) ≡ pick method (or_nil o)
  unfolding pick
  pick-or_nil method none = refl
  pick-or_nil method (some cs) = refl

  same_key_iff :
      (r : MockResponse F) (p m c : Bytes)
      → Readable r
      → NoPipe p m
      → equal (response_key r) (make_index_key p m c) ≡ serves p m c r
  same_key_iff r p m c h n = ground (
    arith,
    equal_iff (response_key r) (make_index_key p m c),
    equal_iff r.path p,
    equal_iff r.mock_id m,
    equal_iff r.content_type c,
    make_index_key_injective r.path r.mock_id r.content_type p m c h.of_path h.of_mock_id n.of_path
        n.of_mock_id,
  )

module _ {F Op : Type 0} where
  -- The answer is the first loaded response with the request's key that accepts the method.
  pub find_response_bytes_key :
      (rs : List (MockResponse F)) (s : MockStorage F Op) (p m c method : Bytes)
      → Indexes rs s
      → find_response_bytes s p m c method
        ≡ find
            (λ r. equal (response_key r) (make_index_key p m (normalize c)) && accepts method r)
            rs
  unfolding find_response_bytes
  find_response_bytes_key rs s p m c method h =
      let key = make_index_key p m (normalize c) in
      let built = make_index_key_from_bytes_lem p m (normalize c) in
      pick-or_nil method (lookup (make_index_key_from_bytes p m (normalize c)) s.responses)
      ∙ ap (λ k. pick method (slice_at k s.responses)) built
      ∙ ap (λ t. pick method (slice_at key t)) h.by_key
      ∙ ap (pick method) (slice_at-index response_key key rs)
      ∙ pick-eq-find method (bucket response_key key rs)
      ∙ find-keep (λ r. equal (response_key r) key) (accepts method) rs

  -- In a store that indexes a list of responses, with no '|' in paths and mock ids,
  -- FindResponseBytes is the search of the load order for the path, the mock id, the normalized
  -- content type and the method.
  pub find_response_bytes_refines :
      (rs : List (MockResponse F)) (s : MockStorage F Op) (p m c method : Bytes)
      → Indexes rs s
      → All Readable rs
      → NoPipe p m
      → find_response_bytes s p m c method
        ≡ find (λ r. serves p m (normalize c) r && accepts method r) rs
  find_response_bytes_refines rs s p m c method h readable n =
      find_response_bytes_key rs s p m c method h
      ∙ find-cong _ _ rs (
          All-map (λ r k. ap (λ b. b && accepts method r) (same_key_iff r p m (normalize c) k n)) rs
            readable)

  pub find_response_bytes-In :
      (rs : List (MockResponse F)) (s : MockStorage F Op) (p m c method : Bytes)
      (r : MockResponse F)
      → Indexes rs s
      → find_response_bytes s p m c method ≡ some r
      → In r rs
  find_response_bytes-In rs s p m c method r h found =
      (find-eq-some _ r rs (sym (find_response_bytes_key rs s p m c method h) ∙ found)).0
