-- ===== src/Scenario/Load/Delay.antt =====
-- The delay override of a scenario.
use auto_mock_tools.Prelude.{
  ◌≡◌, refl, ap, Bool, ◌&&◌, List, [], ◌∷◌, map, some, if◌then◌else◌, arith, Bytes, inl, inr,
  Bool-cases,
}
use auto_mock_tools.Host.{Host}
use auto_mock_tools.Storage.Types.{SseEvent, MockResponse}
use auto_mock_tools.Scenario.Load.{rescale, override_delay, has_events}

module _ {F : Type 0} (host : Host F) where
  abbrev pub timestamps : List (SseEvent F) → List F
  timestamps = map (λ (e : SseEvent F). e.timestamp)

  abbrev pub serialized : List (SseEvent F) → List Bytes
  serialized = map (λ (e : SseEvent F). e.serialized_data)

  -- `r'` is `r` with the delay `d`; the events of a stream of positive length keep their data, and
  -- their timestamps are scaled by the ratio of the delays.
  pub record Overridden (d : F) (r r' : MockResponse F) : Type 0 where
    pub delay : r'.delay ≡ d
    pub events : serialized r'.sse_events ≡ serialized r.sse_events
    pub scaled : timestamps r'.sse_events ≡ (
        if r.is_sse && host.lt host.zero r.delay
        then map (λ t. host.mul t (host.div d r.delay)) (timestamps r.sse_events)
        else timestamps r.sse_events)
    pub body : r'.body ≡ r.body
    pub status_code : r'.status_code ≡ r.status_code

  timestamps-rescale :
      (scale : F) (es : List (SseEvent F))
      → timestamps (map (rescale host scale) es) ≡ map (λ t. host.mul t scale) (timestamps es)
  unfolding rescale
  timestamps-rescale scale [] = refl
  timestamps-rescale scale (e ∷ es) =
      ap (◌∷◌ (host.mul e.timestamp scale)) (timestamps-rescale scale es)

  serialized-rescale :
      (scale : F) (es : List (SseEvent F))
      → serialized (map (rescale host scale) es) ≡ serialized es
  unfolding rescale
  serialized-rescale scale [] = refl
  serialized-rescale scale (e ∷ es) = ap (◌∷◌ e.serialized_data) (serialized-rescale scale es)

  module _ (scale : F) (sse positive : Bool) where
    overridden_events :
        (es : List (SseEvent F))
        → serialized (if sse && has_events es && positive then map (rescale host scale) es else es)
          ≡ serialized es
    overridden_events es = elim (Bool-cases (sse && has_events es && positive)) [
      | inl scaled ↦ rw scaled (serialized-rescale scale es)
      | inr kept ↦ rw kept refl
    ]

    overridden_timestamps :
        (es : List (SseEvent F))
        → timestamps (if sse && has_events es && positive then map (rescale host scale) es else es)
          ≡ (if sse && positive then map (λ t. host.mul t scale) (timestamps es) else timestamps es)
    overridden_timestamps [] = ground arith
    overridden_timestamps (e ∷ es) = ground (arith, timestamps-rescale scale (e ∷ es))

  -- A delay override sets the delay, keeps the data of the events, the body and the status, and
  -- scales the timestamps of an event stream whose recorded delay is positive by the ratio of the
  -- delays.
  pub override_delay-Overridden :
      (d : F) (r : MockResponse F) → Overridden d r (override_delay host (some d) r)
  unfolding override_delay
  override_delay-Overridden d r = record {
    delay = refl;
    events =
        overridden_events (host.div d r.delay) r.is_sse (host.lt host.zero r.delay) r.sse_events;
    scaled =
        overridden_timestamps (host.div d r.delay) r.is_sse (host.lt host.zero r.delay)
          r.sse_events;
    body = refl;
    status_code = refl;
  }
