-- ===== src/Handlers/Shape.antt =====
-- The shape of an answer: one status code, one body, and no wait where timing is not replayed.
use auto_mock_tools.Prelude.{
  ◌≡◌, refl, ap, ◌∙◌, Bool, true, false, ◌&&◌, not, inl, inr, Bool-cases, [], ◌∷◌, Option, none,
  some, arith, ◌+◌,
}
use auto_mock_tools.Host.{Host, ℤ, pos}
use auto_mock_tools.Storage.Types.{MockResponse, MockStorage}
use auto_mock_tools.Scenario.Types.{Externals}
use auto_mock_tools.Scenario.Load.{has_events}
use auto_mock_tools.Handlers.Calls.{Request, Call, set_status_code, set_body, sleep}
use auto_mock_tools.Handlers.{
  response_headers, replay_delay, response_body, respond, not_found, served, lookup_mock,
  mock_handler,
}
use auto_mock_tools.Handlers.Headers.{answer, respond_lem}
use auto_mock_tools.Handlers.Routing.{mock_handler_lem}
use auto_mock_tools.Handlers.Count.{
  is_status, is_body, waits, count, count-append, PassesHeaders, count-response_headers,
}

module _ {F Op : Type 0} (host : Host F) (store : MockStorage F Op) (random : F) where
  count-replay_delay :
      (p : Call F → Bool) (r : MockResponse F)
      → p (sleep (pos 0)) ≡ false
      → ((t : ℤ) → p (sleep t) ≡ p (sleep (pos 0)))
      → count p (replay_delay host store random r) ≡ 0
  unfolding replay_delay
  count-replay_delay p r e same =
      elim (Bool-cases (store.replay_timing && not r.is_sse && host.lt host.zero r.delay)) [
        | inl slept ↦ rw (slept, same, e) refl
        | inr at_once ↦ rw at_once refl
      ]

  response_body_one : (r : MockResponse F) → count is_body (response_body host store random r) ≡ 1
  unfolding response_body
  response_body_one r =
      elim (Bool-cases (r.is_sse && has_events r.sse_events && store.replay_timing)) [
        | inl streamed ↦ rw streamed refl
        | inr whole ↦ rw whole refl
      ]

  response_body_no_status :
      (r : MockResponse F) → count is_status (response_body host store random r) ≡ 0
  unfolding response_body
  response_body_no_status r =
      elim (Bool-cases (r.is_sse && has_events r.sse_events && store.replay_timing)) [
        | inl streamed ↦ rw streamed refl
        | inr whole ↦ rw whole refl
      ]

  count-respond :
      (p : Call F → Bool) (r : MockResponse F)
      → PassesHeaders p
      → count p (respond host store random r)
        ≡ count p (replay_delay host store random r)
          + count p (set_status_code r.status_code ∷ response_body host store random r)
  count-respond p r passes =
      ap (count p) (respond_lem host store random r)
      ∙ count-append p (replay_delay host store random r) (answer host store random r)
      ∙ ap (λ n. count p (replay_delay host store random r) + n) tail
    where
      tail :
          count p (answer host store random r)
          ≡ count p (set_status_code r.status_code ∷ response_body host store random r)
      tail = ground (
        arith,
        count-append p (response_headers host r) (response_body host store random r),
        count-response_headers host p passes r,
      )

  respond_one_status : (r : MockResponse F) → count is_status (respond host store random r) ≡ 1
  respond_one_status r =
      rw
        (
          count-respond is_status r (record { header = λ k v. refl; content_type = λ v. refl }),
          count-replay_delay is_status r refl (λ t. refl),
          response_body_no_status,
        )
        refl

  respond_one_body : (r : MockResponse F) → count is_body (respond host store random r) ≡ 1
  respond_one_body r =
      rw
        (
          count-respond is_body r (record { header = λ k v. refl; content_type = λ v. refl }),
          count-replay_delay is_body r refl (λ t. refl),
          response_body_one,
        )
        refl

  replay_delay_untimed :
      (r : MockResponse F) → store.replay_timing ≡ false → replay_delay host store random r ≡ []
  unfolding replay_delay
  replay_delay_untimed r untimed = ground (arith, untimed)

  pub response_body_untimed :
      (r : MockResponse F)
      → store.replay_timing ≡ false
      → response_body host store random r ≡ set_body r.body ∷ []
  unfolding response_body
  response_body_untimed r untimed = ground (arith, untimed)

  respond_no_wait :
      (r : MockResponse F)
      → store.replay_timing ≡ false
      → count waits (respond host store random r) ≡ 0
  respond_no_wait r untimed =
      rw
        (
          count-respond waits r (record { header = λ k v. refl; content_type = λ v. refl }),
          replay_delay_untimed r untimed,
          response_body_untimed r untimed,
        )
        refl

module _ {F Op : Type 0} (host : Host F) (externals : Externals F Op)
    (store : MockStorage F Op) where
  served_one :
      (logging : Bool) (random : F) (o : Option (MockResponse F))
      → (count is_status (served host externals store logging random o) ≡ 1)
        × (count is_body (served host externals store logging random o) ≡ 1)
  unfolding served not_found
  served_one true random none = (refl, refl)
  served_one false random none = (refl, refl)
  served_one logging random (some r) =
      (respond_one_status host store random r, respond_one_body host store random r)

  -- The answer of MockHandler sets the status code once and the body once.
  pub mock_handler_answers_once :
      (logging : Bool) (random : F) (request : Request)
      → (count is_status (mock_handler host externals store logging random request) ≡ 1)
        × (count is_body (mock_handler host externals store logging random request) ≡ 1)
  mock_handler_answers_once logging random request =
      rw mock_handler_lem (served_one logging random (lookup_mock host externals store request))

  served_no_wait :
      (logging : Bool) (random : F) (o : Option (MockResponse F))
      → store.replay_timing ≡ false
      → count waits (served host externals store logging random o) ≡ 0
  unfolding served not_found
  served_no_wait true random none h = refl
  served_no_wait false random none h = refl
  served_no_wait logging random (some r) h = respond_no_wait host store random r h

  -- Where timing is not replayed, no request makes the server sleep or stream.
  pub mock_handler_no_wait :
      (logging : Bool) (random : F) (request : Request)
      → store.replay_timing ≡ false
      → count waits (mock_handler host externals store logging random request) ≡ 0
  mock_handler_no_wait logging random request h =
      rw mock_handler_lem
        (served_no_wait logging random (lookup_mock host externals store request) h)
