-- ===== src/Handlers/Pool/Ends.antt =====
-- Every stream comes to its end, in whatever order the goroutines move.
use auto_mock_tools.Prelude.{
  ℕ, zero, suc, ◌+◌, ◌≤◌, ◌<◌, ◌≡◌, inl, inr, refl, sym, ap, ◌∙◌, subst, List, [], ◌∷◌, ◌++◌,
  length, length-append, All-In, In, arith,
}
use auto_mock_tools.Host.{Host}
use auto_mock_tools.Handlers.Stream.{stream_to}
use auto_mock_tools.Handlers.Pool.{
  StreamWriter, Stream, System, Serve, advances, puts, Step, serves, gets_new, gets_pooled, drops,
  Reach, later,
}
use auto_mock_tools.Handlers.Pool.Invariant.{IsWhole, Correct, Reach-Correct}
use auto_mock_tools.Handlers.Pool.Progress.{
  work, Serve-work, next_serve, requests, IsKept, Serve-IsKept,
}

-- whether the step is a further request
abbrev pub further : {F : Type 0} {host : Host F} {t u : System F} → Step host t u → ℕ
further (serves p) = 0
further (gets_new wanted) = 1
further (gets_pooled before i after wanted e) = 1
further (drops before i after e) = 0

-- In every order of steps with at most `n` further requests the system comes to a state with the
-- property: the state has it, or some goroutine can move and after every step, of a goroutine, a
-- further request or the pool, it is inevitable with as many requests as are left.
pub data Inevitably {F : Type 0} (host : Host F) (P : System F → Type 0)
    : ℕ → System F → Type 0 where
  now : {n : ℕ} {t : System F} → P t → Inevitably host P n t
  moves :
      {n : ℕ} {t : System F} (u : System F)
      → Serve host t u
      → ((v : System F) (p : Step host t v) (m : ℕ) → n ≡ further p + m → Inevitably host P m v)
      → Inevitably host P n t

module _ {F : Type 0} (host : Host F) where
  -- No stream runs, and each of the requests has a stream that has ended and is whole.
  abbrev pub AllServed : List (StreamWriter F) → System F → Type 0
  AllServed wanted t =
      (t.running ≡ [])
      × ((w : StreamWriter F)
          → In w wanted
          → (s : Stream F) × In s t.finished
            × (s.wanted ≡ w)
            × (s.steps ≡ stream_to host w.jitter_scale w.events))

  In-requests :
      (w : StreamWriter F) (ss : List (Stream F))
      → In w (requests host ss)
      → (s : Stream F) × In s ss × (s.wanted ≡ w)
  In-requests w [] h = elim h [ ]
  In-requests w (s ∷ ss) (inl e) = (s, inl refl, sym e)
  In-requests w (s ∷ ss) (inr h) = let (r, i, e) = In-requests w ss h in (r, inr i, e)

  served :
      (wanted : List (StreamWriter F)) (t : System F)
      → Correct host t
      → t.running ≡ []
      → ((w : StreamWriter F) → In w wanted → IsKept host w t)
      → AllServed wanted t
  served wanted t c none_runs kept = (
    none_runs,
    λ w i. elim (kept w i) [
      | inl running ↦ absurd (subst (λ ss. In w (requests host ss)) none_runs running)
      | inr ended ↦
          let (s, at, e) = In-requests w t.finished ended in
          (
            s,
            at,
            e,
            All-In (IsWhole host) s t.finished c.ended at
                ∙ ap (λ (v : StreamWriter F). stream_to host v.jitter_scale v.events) e,
          )
    ],
  )

  Step-IsKept :
      {t u : System F} (wanted : StreamWriter F)
      → Step host t u
      → IsKept host wanted t
      → IsKept host wanted u
  Step-IsKept wanted (serves p) k = Serve-IsKept host wanted p k
  Step-IsKept wanted (gets_new w) (inl m) = inl (inr m)
  Step-IsKept wanted (gets_new w) (inr m) = inr m
  Step-IsKept wanted (gets_pooled before i after w e) (inl m) = inl (inr m)
  Step-IsKept wanted (gets_pooled before i after w e) (inr m) = inr m
  Step-IsKept wanted (drops before i after e) k = k

  -- Without a further request each step makes it less.
  abbrev measure : System F → ℕ
  measure t = work t.running + work t.running + length t.pool

  Serve-measure : {t u : System F} → Serve host t u → Correct host t → measure u < measure t
  Serve-measure (advances before s after e n n') c =
      omega (arith, Serve-work host (advances before s after e n n') c)
  Serve-measure (puts before s after e at) c =
      omega (arith, Serve-work host (puts before s after e at) c)

  drops-measure :
      (before : List ℕ) (i : ℕ) (after : List ℕ) (pool : List ℕ)
      → pool ≡ before ++ (i ∷ after)
      → length (before ++ after) < length pool
  drops-measure before i after pool e =
      omega (arith, ap length e, length-append before (i ∷ after), length-append before after)

  module _ (wanted : List (StreamWriter F)) where
    -- All that can be reached with the requests kept comes to its end.
    abbrev EndsWith : ℕ → Type 0
    EndsWith n =
        (t : System F)
        → Reach host t
        → ((w : StreamWriter F) → In w wanted → IsKept host w t)
        → Inevitably host (AllServed wanted) n t

    -- after a step it ends, if it does with less to go or with fewer requests
    after_step :
        (n k : ℕ)
        → ((m : ℕ) → n ≡ suc m → EndsWith m)
        → ((t : System F)
            → Reach host t
            → measure t ≤ k
            → ((w : StreamWriter F) → In w wanted → IsKept host w t)
            → Inevitably host (AllServed wanted) n t)
        → (t v : System F) → Reach host t
        → measure t ≤ suc k
        → (q : Step host t v) (m : ℕ) → n ≡ further q + m
        → ((w : StreamWriter F) → In w wanted → IsKept host w v)
        → Inevitably host (AllServed wanted) m v
    after_step n k fewer less t v r h (serves p) m left kept =
        subst (λ j. Inevitably host (AllServed wanted) j v) (omega arith)
          (less v (later r (serves p)) (omega (arith, Serve-measure p (Reach-Correct host r))) kept)
    after_step n k fewer less t v r h (gets_new w) m left kept =
        fewer m (omega arith) _ (later r (gets_new w)) kept
    after_step n k fewer less t v r h (gets_pooled before i after w f) m left kept =
        fewer m (omega arith) _ (later r (gets_pooled before i after w f)) kept
    after_step n k fewer less t v r h (drops before i after f) m left kept =
        subst (λ j. Inevitably host (AllServed wanted) j (record t { pool = before ++ after }))
          (omega arith)
          (less _ (later r (drops before i after f))
            (omega (arith, drops-measure before i after t.pool f)) kept)

    ends_within :
        (n : ℕ)
        → ((m : ℕ) → n ≡ suc m → EndsWith m)
        → (k : ℕ) (t : System F) (ss : List (Stream F)) → Reach host t
        → t.running ≡ ss
        → measure t ≤ k
        → ((w : StreamWriter F) → In w wanted → IsKept host w t)
        → Inevitably host (AllServed wanted) n t
    ends_within n fewer k t [] r e h kept = now (served wanted t (Reach-Correct host r) e kept)
    ends_within n fewer zero t (s ∷ ss) r e h kept =
        let (u, p) = next_serve host t [] s ss r e in
        absurd (omega (arith, Serve-measure p (Reach-Correct host r)))
    ends_within n fewer (suc k) t (s ∷ ss) r e h kept =
        let (u, p) = next_serve host t [] s ss r e in
        moves u p λ v q m left.
          after_step n k fewer (λ x r' h' kept'. ends_within n fewer k x x.running r' refl h' kept')
            t v r h q m left (λ w i. Step-IsKept w q (kept w i))

    ends : (n : ℕ) → EndsWith n
    ends zero t r kept =
        ends_within zero (λ m e. absurd (omega arith)) (measure t) t t.running r refl (omega arith)
          kept
    ends (suc n) t r kept =
        ends_within (suc n) (λ m e. subst EndsWith (omega arith) (ends n)) (measure t) t t.running r
          refl (omega arith) kept

  -- From every state that can be reached, in every order of steps of the goroutines, of at most n
  -- further requests and of the pool, which may drop writers, the system comes to a state in
  -- which no stream runs and each request that was in progress has a stream that has ended and
  -- has written its whole response; and until then some goroutine can move.
  pub streams_end :
      (n : ℕ) (t : System F)
      → Reach host t
      → Inevitably host (AllServed (requests host t.running)) n t
  streams_end n t r = ends (requests host t.running) n t r (λ w i. inl i)
