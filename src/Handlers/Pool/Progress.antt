-- ===== src/Handlers/Pool/Progress.antt =====
-- A goroutine that runs can move, each of its steps leaves less to go, and its request is kept.
use mathlib.Core.List.{map-append}
use auto_mock_tools.Prelude.{
  ℕ, zero, suc, ◌+◌, ◌≡◌, ◌≢◌, ◌⊎◌, inl, inr, refl, sym, ap, ◌∙◌, subst, List, [], ◌∷◌, ◌++◌, map,
  length, All-split, get_elem?, get_elem?-drop, All, In, In-append_right, arith,
}
use auto_mock_tools.Host.{Host}
use auto_mock_tools.Handlers.Pool.{
  StreamWriter, Stream, System, Point, taken, filled, ready, streaming, cleared, crashed,
  advance_from, advance, Serve, advances, puts, Reach,
}
use auto_mock_tools.Handlers.Pool.Owners.{advance_keeps}
use auto_mock_tools.Handlers.Pool.Invariant.{
  HoldsAt, Holds, Correct, streams_never_crash, send_event_lem,
}

-- the steps that a goroutine has to go
abbrev pub work_at : {F : Type 0} → Point → StreamWriter F → ℕ
work_at taken wanted = 5 + length wanted.events
work_at filled wanted = 4 + length wanted.events
work_at ready wanted = 3 + length wanted.events
work_at (streaming left i) wanted = 2 + left
work_at cleared wanted = 1
work_at crashed wanted = 0

abbrev pub work : {F : Type 0} → List (Stream F) → ℕ
work [] = 0
work (s ∷ ss) = work_at s.point s.wanted + work ss

work-middle :
    {F : Type 0} (before : List (Stream F)) (s : Stream F) (after : List (Stream F))
    → work (before ++ (s ∷ after)) ≡ work_at s.point s.wanted + work (before ++ after)
work-middle [] s after = refl
work-middle (b ∷ before) s after = omega (arith, work-middle before s after)

module _ {F : Type 0} (host : Host F) where
  advance_from-work :
      (p : Point) (w : StreamWriter F) (s : Stream F)
      → p ≢ cleared
      → p ≢ crashed
      → HoldsAt host p w s
      → work_at p s.wanted
        ≡ suc (work_at (advance_from host p w s).1.point (advance_from host p w s).1.wanted)
  unfolding advance_from
  advance_from-work taken w s _ _ h = omega arith
  advance_from-work filled w s _ _ h = omega arith
  advance_from-work ready w s _ _ (e, _) =
      omega (arith, ap (λ (v : StreamWriter F). length v.events) e)
  advance_from-work (streaming (suc left) i) w s _ _ (e, count, _) =
      let (event, at, _) = get_elem?-drop i left s.wanted.events count in
      let w_event = ap (λ (v : StreamWriter F). get_elem? v.events i) e ∙ at in
      omega (
        arith,
        ap (λ (r : Stream F). work_at r.point r.wanted)
            (send_event_lem host w left i s event w_event),
      )
  advance_from-work (streaming zero i) w s _ _ h = omega arith
  advance_from-work cleared w s n _ h = absurd (n refl)
  advance_from-work crashed w s _ n h = absurd (n refl)

  pub Serve-work :
      {t u : System F} → Serve host t u → Correct host t → work t.running ≡ suc (work u.running)
  Serve-work {t} (advances before s after e not_cleared not_crashed) c =
      let held =
        All-split (Holds host t.heap) before (s ∷ after)
          (subst (All (Holds host t.heap)) e c.holding) in
      let s' = (advance host (t.heap s.writer) s).1 in
      ap work e
      ∙ omega (
        arith,
        work-middle before s after,
        work-middle before s' after,
        advance_from-work s.point (t.heap s.writer) s not_cleared not_crashed held.1.0,
      )
  Serve-work {t} (puts before s after e at_end) c =
      omega (arith, ap work e, work-middle before s after, ap (λ p. work_at p s.wanted) at_end)

  -- A goroutine that runs can move, wherever it stands in the list.
  serve_at :
      (t : System F) (before : List (Stream F)) (s : Stream F) (after : List (Stream F)) (p : Point)
      → t.running ≡ before ++ (s ∷ after)
      → s.point ≡ p
      → p ≢ crashed
      → (u : System F) × Serve host t u
  serve_at t before s after cleared e at n = (_, puts before s after e at)
  serve_at t before s after crashed e at n = absurd (n refl)
  serve_at t before s after taken e at n =
      (_, advances before s after e (λ x. ground arith) (λ x. ground arith))
  serve_at t before s after filled e at n =
      (_, advances before s after e (λ x. ground arith) (λ x. ground arith))
  serve_at t before s after ready e at n =
      (_, advances before s after e (λ x. ground arith) (λ x. ground arith))
  serve_at t before s after (streaming left i) e at n =
      (_, advances before s after e (λ x. ground arith) (λ x. ground arith))

  unfoldable pub next_serve :
      (t : System F) (before : List (Stream F)) (s : Stream F) (after : List (Stream F))
      → Reach host t
      → t.running ≡ before ++ (s ∷ after)
      → (u : System F) × Serve host t u
  unfolding serve_at
  next_serve t before s after r e = serve_at t before s after s.point e refl (
      streams_never_crash host t s r
        (subst (In s) (sym e) (In-append_right s before (s ∷ after) (inl refl))))

  abbrev pub requests : List (Stream F) → List (StreamWriter F)
  requests = map λ s. s.wanted

  -- A request is in progress or has ended.
  abbrev pub IsKept : StreamWriter F → System F → Type 0
  IsKept wanted t = In wanted (requests t.running) ⊎ In wanted (requests t.finished)

  kept_middle :
      (before : List (Stream F)) (s s' : Stream F) (after : List (Stream F))
      → s.wanted ≡ s'.wanted
      → requests (before ++ (s ∷ after)) ≡ requests (before ++ (s' ∷ after))
  kept_middle [] s s' after h = ap (λ w. w ∷ requests after) h
  kept_middle (b ∷ before) s s' after h = ap (◌∷◌ b.wanted) (kept_middle before s s' after h)

  In-middle :
      {A : Type 0} (x : A) (xs : List A) (y : A) (ys : List A)
      → In x (xs ++ (y ∷ ys))
      → (x ≡ y) ⊎ In x (xs ++ ys)
  In-middle x [] y ys h = h
  In-middle x (z ∷ xs) y ys (inl e) = inr (inl e)
  In-middle x (z ∷ xs) y ys (inr h) = elim (In-middle x xs y ys h) [
    | inl e ↦ inl e
    | inr i ↦ inr (inr i)
  ]

  pub Serve-IsKept :
      {t u : System F} (wanted : StreamWriter F)
      → Serve host t u
      → IsKept wanted t
      → IsKept wanted u
  Serve-IsKept {t} wanted (advances before s after e _ _) (inl m) = inl (
      subst (In wanted)
        (kept_middle before s _ after (sym (advance_keeps host (t.heap s.writer) s.point s).1))
        (subst (λ ss. In wanted (requests ss)) e m))
  Serve-IsKept wanted (advances before s after e _ _) (inr m) = inr m
  Serve-IsKept {t} wanted (puts before s after e _) (inl m) =
      elim (In-middle wanted (requests before) s.wanted (requests after)
        (subst (In wanted) (ap requests e ∙ map-append _ before (s ∷ after)) m)) [
          | inl here ↦ inr (inl here)
          | inr other ↦ inl (subst (In wanted) (sym (map-append _ before after)) other)
        ]
  Serve-IsKept wanted (puts before s after e _) (inr m) = inr (inr m)
