-- ===== src/Handlers/Pool/Owners.antt =====
-- Who holds a writer: each is held by one goroutine or by the pool, and by no two of them.
use mathlib.Core.List.{
  Nodup, Mem, Perm, mem-cons, mem-cons_of_mem, not-mem-nil, Nodup-cons, Nodup-nil, mem-append_left,
  perm_middle, map-append,
}
use mathlib.Core.List.Perm
use mathlib.Core.Logic.Or
use native.Mathlib.Bridge.{le_prop}
use auto_mock_tools.Prelude.{
  ℕ, zero, suc, ◌<◌, ◌≡◌, refl, sym, ap, ◌∙◌, subst, List, ◌∷◌, ◌++◌, map, arith,
}
use auto_mock_tools.Host.{Host}
use auto_mock_tools.Handlers.Pool.{
  StreamWriter, Stream, System, Point, taken, filled, ready, streaming, cleared, crashed,
  send_event, advance_from, advanced, Serve, advances, puts, Step, serves, gets_new, gets_pooled,
  drops, Reach, start, later,
}

abbrev pub writers : {F : Type 0} → List (Stream F) → List ℕ
writers = map λ s. s.writer

abbrev pub owners : {F : Type 0} → System F → List ℕ
owners t = writers t.running ++ t.pool

pub record Owned (held : List ℕ) (allocated : ℕ) : Type 0 where
  pub distinct : Nodup held
  pub below : (i : ℕ) → Mem i held → i < allocated

Owned-perm : {xs ys : List ℕ} (n : ℕ) → Perm xs ys → Owned xs n → Owned ys n
Owned-perm n p h = record {
  distinct = Perm.nodup p h.distinct;
  below = λ i m. h.below i ((Perm.mem_iff p).1 m);
}

Owned-tail : (i n : ℕ) (xs : List ℕ) → Owned (i ∷ xs) n → Owned xs n
Owned-tail i n xs h = record {
  distinct = (Nodup-cons.0 h.distinct).1;
  below = λ j m. h.below j (mem-cons_of_mem i m);
}

Owned-fresh : (n : ℕ) (xs : List ℕ) → Owned xs n → Owned (n ∷ xs) (suc n)
Owned-fresh n xs h = record {
  distinct = Nodup-cons.1 (λ m. omega (arith, h.below n m), h.distinct);
  below =
      λ i m. Or.elim le_prop (mem-cons.0 m) (λ e. omega arith) (λ m'. omega (arith, h.below i m'));
}

-- an element of the second part, in front
front : (i : ℕ) (xs ys zs : List ℕ) → Perm (xs ++ (ys ++ (i ∷ zs))) (i ∷ (xs ++ (ys ++ zs)))
front i xs ys zs = Perm.trans (Perm.append_left xs (perm_middle ys zs)) (perm_middle xs (ys ++ zs))

-- an element of the first part, moved to the second
moved : (i : ℕ) (xs ys zs : List ℕ) → Perm ((xs ++ (i ∷ ys)) ++ zs) ((xs ++ ys) ++ (i ∷ zs))
moved i xs ys zs =
    Perm.trans (Perm.append_right zs (perm_middle xs ys)) (Perm.symm (perm_middle (xs ++ ys) zs))

module _ {F : Type 0} where
  pub writers_middle :
      (before : List (Stream F)) (s : Stream F) (after : List (Stream F))
      → writers (before ++ (s ∷ after)) ≡ writers before ++ (s.writer ∷ writers after)
  writers_middle before s after = map-append _ before (s ∷ after)

module _ {F : Type 0} (host : Host F) where
  pub send_event_keeps :
      (w : StreamWriter F) (left i : ℕ) (s : Stream F)
      → ((send_event host w left i s).writer ≡ s.writer)
        × ((send_event host w left i s).wanted ≡ s.wanted)
  unfolding send_event
  send_event_keeps w left i s = ground arith

  pub advance_keeps :
      (w : StreamWriter F) (p : Point) (s : Stream F)
      → ((advance_from host p w s).1.writer ≡ s.writer)
        × ((advance_from host p w s).1.wanted ≡ s.wanted)
  unfolding advance_from
  advance_keeps w taken s = (refl, refl)
  advance_keeps w filled s = (refl, refl)
  advance_keeps w ready s = (refl, refl)
  advance_keeps w (streaming (suc left) i) s = send_event_keeps w left i s
  advance_keeps w (streaming zero i) s = (refl, refl)
  advance_keeps w cleared s = (refl, refl)
  advance_keeps w crashed s = (refl, refl)

  owners-advanced :
      (t : System F) (before : List (Stream F)) (s : Stream F) (after : List (Stream F))
      → t.running ≡ before ++ (s ∷ after)
      → owners (advanced host t before s after) ≡ owners t
  owners-advanced t before s after e =
      ap (λ xs. xs ++ t.pool)
        (writers_middle before _ after
          ∙ ap (λ i. writers before ++ (i ∷ writers after))
              (advance_keeps (t.heap s.writer) s.point s).0
          ∙ sym (writers_middle before s after)
          ∙ ap writers (sym e))

  -- The other goroutines have other writers.
  pub others_differ :
      (t : System F) (before : List (Stream F)) (s : Stream F) (after : List (Stream F))
      → t.running ≡ before ++ (s ∷ after)
      → Owned (owners t) t.allocated
      → ¬ Mem s.writer (writers before ++ writers after)
  others_differ t before s after e h m =
      (Nodup-cons.0 (
          Perm.nodup (Perm.append_right t.pool (perm_middle (writers before) (writers after))) (
            subst (λ xs. Nodup (xs ++ t.pool)) (ap writers e ∙ writers_middle before s after)
              h.distinct))).0
        (mem-append_left t.pool m)

  Serve-Owned :
      {t u : System F}
      → Serve host t u
      → Owned (owners t) t.allocated
      → Owned (owners u) u.allocated
  Serve-Owned {t} (advances before s after e _ _) h =
      subst (λ xs. Owned xs t.allocated) (sym (owners-advanced t before s after e)) h
  Serve-Owned {t} (puts before s after e _) h =
      Owned-perm t.allocated
        (subst
          (λ xs.
            Perm ((writers before ++ (s.writer ∷ writers after)) ++ t.pool)
              (xs ++ (s.writer ∷ t.pool)))
          (sym (map-append _ before after))
          (moved s.writer (writers before) (writers after) t.pool))
        (subst (λ xs. Owned (xs ++ t.pool) t.allocated)
          (ap writers e ∙ writers_middle before s after) h)

  taken_out :
      (t : System F) (before : List ℕ) (i : ℕ) (after : List ℕ)
      → t.pool ≡ before ++ (i ∷ after)
      → Owned (owners t) t.allocated
      → Owned (i ∷ (writers t.running ++ (before ++ after))) t.allocated
  taken_out t before i after e h =
      Owned-perm t.allocated (front i (writers t.running) before after)
        (subst (λ xs. Owned (writers t.running ++ xs) t.allocated) e h)

  Step-Owned :
      {t u : System F} → Step host t u → Owned (owners t) t.allocated → Owned (owners u) u.allocated
  Step-Owned (serves p) h = Serve-Owned p h
  Step-Owned {t} (gets_new wanted) h = Owned-fresh t.allocated (owners t) h
  Step-Owned {t} (gets_pooled before i after wanted e) h = taken_out t before i after e h
  Step-Owned {t} (drops before i after e) h =
      Owned-tail i t.allocated (owners (record t { pool = before ++ after }))
        (taken_out t before i after e h)

  -- However the goroutines interleave, no two of them hold the same writer, none holds a writer
  -- of the pool, no writer stands in the pool twice, and none is held that was not allocated.
  pub Reach-Owned : {t : System F} → Reach host t → Owned (owners t) t.allocated
  Reach-Owned start = record { distinct = Nodup-nil; below = λ i m. absurd (not-mem-nil m) }
  Reach-Owned (later r p) = Step-Owned p (Reach-Owned r)
