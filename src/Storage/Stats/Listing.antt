-- ===== src/Storage/Stats/Listing.antt =====
-- What the statistics and the listings say of the loaded responses, for any order in which the maps
-- are visited.
use mathlib.Core.List.{append-nil, append_assoc, Permᴰ}
use mathlib.Core.List.Permᴰ
use auto_mock_tools.Prelude.{
  suc, ◌+◌, ◌≡◌, refl, sym, ap, ◌∙◌, inl, inr, false, Bool-cases, List, [], ◌∷◌, ◌++◌,
  if◌then◌else◌, arith, Bytes, equal, length, length-append, Assoc, lookup, insert,
}
use auto_mock_tools.Host.{Host}
use auto_mock_tools.Storage.Types.{MockResponse, MockStorage}
use auto_mock_tools.Storage.Index.{slice_at, append_at, response_key}
use auto_mock_tools.Storage.Index.Buckets.{append_all}
use auto_mock_tools.Storage.Find.Catalog.{Indexes}
use auto_mock_tools.Storage.Stats.{
  Stats, no_stats, count_bucket, count_buckets, concat_buckets, compute_stats, list_all_mocks,
}

module _ {V : Type 0} where
  abbrev flat : Assoc (List V) → List V
  flat [] = []
  flat ((_, vs) ∷ m) = vs ++ flat m

  append_swap : (us vs ws : List V) → Permᴰ (us ++ (vs ++ ws)) (vs ++ (us ++ ws))
  append_swap us vs ws =
      rw (← append_assoc)
        (rw (← append_assoc vs us ws) (Permᴰ.append_right ws (Permᴰ.append_comm us vs)))

  flat-perm : {m m' : Assoc (List V)} → Permᴰ m m' → Permᴰ (flat m) (flat m')
  flat-perm Permᴰ.nil = Permᴰ.nil
  flat-perm (Permᴰ.cons {b = y} e p) =
      let same = ap (λ (t : Bytes × List V). t.1) e in rw same (Permᴰ.append_left y.1 (flat-perm p))
  flat-perm (Permᴰ.swap {a' = a'} {b' = b'} {l = l} e f) =
      let first = ap (λ (t : Bytes × List V). t.1) e in
      let second = ap (λ (t : Bytes × List V). t.1) f in
      rw (first, second) (append_swap b'.1 a'.1 (flat l))
  flat-perm (Permᴰ.trans p q) = Permᴰ.trans (flat-perm p) (flat-perm q)

  slice_at-cons_ne :
      (k j : Bytes) (w : List V) (m : Assoc (List V))
      → equal j k ≡ false
      → slice_at k ((j, w) ∷ m) ≡ slice_at k m
  unfolding lookup
  slice_at-cons_ne k j w m other = rw other

  append_at_cons :
      (k j : Bytes) (v : V) (w : List V) (m : Assoc (List V))
      → append_at k v ((j, w) ∷ m)
        ≡ (if equal j k then (k, w ++ v ∷ []) ∷ m else (j, w) ∷ append_at k v m)
  unfolding append_at insert lookup
  append_at_cons k j v w m = elim (Bool-cases (equal j k)) [
    | inl same ↦ rw same refl
    | inr other ↦
        rw other (ap (λ us. (j, w) ∷ insert k (us ++ v ∷ []) m) (slice_at-cons_ne k j w m other))
  ]

  flat-append_at :
      (k : Bytes) (v : V) (m : Assoc (List V)) → Permᴰ (flat (append_at k v m)) (v ∷ flat m)
  flat-append_at k v [] = unfold append_at insert lookup in Permᴰ.refl (v ∷ [])
  flat-append_at k v ((j, w) ∷ m) = rw append_at_cons (elim (Bool-cases (equal j k)) [
    | inl same ↦ rw same (rw append_assoc (Permᴰ.middle v w (flat m)))
    | inr other ↦
        rw other
          (Permᴰ.trans (Permᴰ.append_left w (flat-append_at k v m)) (Permᴰ.middle v w (flat m)))
  ])

  module _ (key : V → Bytes) where
    flat-append_all :
        (m : Assoc (List V)) (vs : List V) → Permᴰ (flat (append_all key m vs)) (flat m ++ vs)
    flat-append_all m [] = rw append-nil (Permᴰ.refl (flat m))
    flat-append_all m (v ∷ vs) = Permᴰ.trans (flat-append_all (append_at (key v) v m) vs) (
        Permᴰ.trans (Permᴰ.append_right vs (flat-append_at (key v) v m))
          (Permᴰ.symm (Permᴰ.middle v (flat m) vs)))

length-perm : {V : Type 0} {xs ys : List V} → Permᴰ xs ys → length xs ≡ length ys
length-perm Permᴰ.nil = refl
length-perm (Permᴰ.cons e p) = ap suc (length-perm p)
length-perm (Permᴰ.swap e f) = refl
length-perm (Permᴰ.trans p q) = length-perm p ∙ length-perm q

module _ {F : Type 0} where
  concat_buckets-flat :
      (all : List (MockResponse F)) (m : Assoc (List (MockResponse F)))
      → concat_buckets all m ≡ all ++ flat m
  unfolding concat_buckets
  concat_buckets-flat all [] = sym (append-nil all)
  concat_buckets-flat all ((k, vs) ∷ m) =
      concat_buckets-flat (all ++ vs) m ∙ append_assoc all vs (flat m)

  count_buckets_total :
      (acc : Stats) (m : Assoc (List (MockResponse F)))
      → (count_buckets acc m).total_responses ≡ acc.total_responses + length (flat m)
  unfolding count_buckets
  count_buckets_total acc [] = omega arith
  count_buckets_total acc ((k, []) ∷ m) = count_buckets_total acc m
  count_buckets_total acc ((k, r ∷ rs) ∷ m) =
      omega (arith, count_buckets_total (count_bucket acc (r ∷ rs)) m, length-append rs (flat m))

module _ {F Op : Type 0} (host : Host F) (rs : List (MockResponse F)) (s : MockStorage F Op) where
  visited-perm : Indexes rs s → Permᴰ (flat (host.visit _ s.responses)) rs
  visited-perm h =
      Permᴰ.trans (flat-perm (host.visit-perm _ s.responses))
        (rw h.by_key (flat-append_all response_key [] rs))

  -- Without scenarios ListAllMocks holds each loaded response exactly once, in some order.
  pub list_all_mocks-perm :
      Indexes rs s → s.scenarios_enabled ≡ false → Permᴰ (list_all_mocks host s) rs
  unfolding list_all_mocks
  list_all_mocks-perm h disabled = rw (disabled, concat_buckets-flat) (visited-perm h)

  -- total_responses of the statistics is the number of loaded responses.
  pub compute_stats_total : Indexes rs s → (compute_stats host s).total_responses ≡ length rs
  unfolding compute_stats
  compute_stats_total h =
      let m = host.visit _ s.responses in
      count_buckets_total no_stats m ∙ omega (arith, length-perm (visited-perm h))
