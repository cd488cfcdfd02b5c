-- ===== src/Handlers/Headers.antt =====
-- The headers that `MockHandler` sets.
use auto_mock_tools.Prelude.{
  ◌≡◌, refl, ap, ◌∙◌, Bool, true, false, ◌&&◌, ◌||◌, not, Bool-cases, inl, inr, List, [], ◌∷◌, ◌++◌,
  if◌then◌else◌, arith, Bytes, codes, equal, contains, Assoc, All, All-append, All-perm,
}
use mathlib.Core.List.Permᴰ
use auto_mock_tools.Ascii.{to_lower_ascii_simple}
use auto_mock_tools.Host.{Host}
use auto_mock_tools.Storage.Types.{MockResponse, MockStorage}
use auto_mock_tools.Scenario.Load.{has_events}
use auto_mock_tools.Loader.Lowered.{Keyed}
use auto_mock_tools.Handlers.Calls.{
  Call, set_status_code, set_header, set_content_type, exclude_headers_lower,
}
use auto_mock_tools.Handlers.{
  copy_headers_from, response_headers, replay_delay, response_body, respond, not_found,
}

module _ {F : Type 0} where
  -- The call sets no header of the excluded list, in any case of letters.
  abbrev pub Hides : Call F → Type 0
  Hides (set_header k v) = contains exclude_headers_lower (to_lower_ascii_simple k) ≡ false
  Hides _ = Unit

  -- The call sets the content type of the response.
  abbrev pub sets_type : Call F → Bool
  sets_type (set_header k v) = equal (to_lower_ascii_simple k) (codes "content-type")
  sets_type (set_content_type v) = true
  sets_type _ = false

  abbrev pub any_call : (Call F → Bool) → List (Call F) → Bool
  any_call p [] = false
  any_call p (c ∷ cs) = p c || any_call p cs

  any_call-append_left :
      (p : Call F → Bool) (xs ys : List (Call F))
      → any_call p xs ≡ true
      → any_call p (xs ++ ys) ≡ true
  any_call-append_left p [] ys h = cc
  any_call-append_left p (x ∷ xs) ys h = ground (arith, any_call-append_left p xs ys)

  any_call-append_right :
      (p : Call F → Bool) (xs ys : List (Call F))
      → any_call p ys ≡ true
      → any_call p (xs ++ ys) ≡ true
  any_call-append_right p [] ys h = h
  any_call-append_right p (x ∷ xs) ys h = ground (arith, any_call-append_right p xs ys h)

abbrev marks : Bytes → Bool → Bool
marks key_lower flag = if equal key_lower (codes "content-type") then true else flag

flag_step :
    (is_type flag later : Bool)
    → (later || (if is_type then true else flag)) ≡ ((is_type || later) || flag)
flag_step is_type flag later = ground arith

module _ {F : Type 0} (host : Host F) (headers : Assoc Bytes) where
  copy_headers_from-Hides :
      (flag : Bool) (m : Assoc Bytes)
      → Keyed m
      → All Hides (copy_headers_from host headers flag m).1
  unfolding copy_headers_from
  copy_headers_from-Hides flag [] h = tt
  copy_headers_from-Hides flag ((key_lower, key) ∷ m) h =
      elim (Bool-cases (contains exclude_headers_lower key_lower)) [
        | inl excluded ↦ rw excluded (copy_headers_from-Hides flag m h.1)
        | inr free ↦ rw free (rw h.0 at free, copy_headers_from-Hides (marks key_lower flag) m h.1)
      ]

  -- The flag comes back set exactly where it was, or where a content type was copied.
  copy_headers_from_flag :
      (flag : Bool) (m : Assoc Bytes)
      → Keyed m
      → (copy_headers_from host headers flag m).0
        ≡ (any_call sets_type (copy_headers_from host headers flag m).1 || flag)
  unfolding copy_headers_from
  copy_headers_from_flag flag [] h = refl
  copy_headers_from_flag flag ((key_lower, key) ∷ m) h =
      elim (Bool-cases (contains exclude_headers_lower key_lower)) [
        | inl excluded ↦ rw excluded (copy_headers_from_flag flag m h.1)
        | inr free ↦ rw free (
            copy_headers_from_flag (marks key_lower flag) m h.1
            ∙ flag_step (equal key_lower (codes "content-type")) flag
                (any_call sets_type (copy_headers_from host headers (marks key_lower flag) m).1)
            ∙ ap
                (λ k.
                  (equal k (codes "content-type")
                    || any_call sets_type
                        (copy_headers_from host headers (marks key_lower flag) m).1)
                  || flag)
                h.0)
      ]

module _ {F : Type 0} (host : Host F) (r : MockResponse F) (keyed : Keyed r.header_keys_lower) where
  visited-Keyed : Keyed (host.visit _ r.header_keys_lower)
  visited-Keyed =
      All-perm (λ (t : Bytes × Bytes). t.0 ≡ to_lower_ascii_simple t.1)
        (Permᴰ.symm (host.visit-perm _ r.header_keys_lower)) keyed

  response_headers-Hides : All Hides (response_headers host r)
  unfolding response_headers
  response_headers-Hides =
      let copied = copy_headers_from host r.headers false (host.visit _ r.header_keys_lower) in
      let hidden = copy_headers_from-Hides host r.headers false _ visited-Keyed in
      elim (Bool-cases copied.0) [
        | inl set ↦ rw set hidden
        | inr unset ↦ rw unset (All-append Hides copied.1 _ hidden (tt, tt))
      ]

  response_headers-sets_type : any_call sets_type (response_headers host r) ≡ true
  unfolding response_headers
  response_headers-sets_type =
      let copied = copy_headers_from host r.headers false (host.visit _ r.header_keys_lower) in
      let flagged = copy_headers_from_flag host r.headers false _ visited-Keyed in
      elim (Bool-cases copied.0) [
        | inl set ↦ rw set (ground (arith, flagged))
        | inr unset ↦ rw unset (any_call-append_right sets_type copied.1 _ refl)
      ]

module _ {F Op : Type 0} (host : Host F) (store : MockStorage F Op) (random : F) where
  replay_delay-Hides : (r : MockResponse F) → All Hides (replay_delay host store random r)
  unfolding replay_delay
  replay_delay-Hides r =
      elim (Bool-cases (store.replay_timing && not r.is_sse && host.lt host.zero r.delay)) [
        | inl slept ↦ rw slept (tt, tt)
        | inr at_once ↦ rw at_once tt
      ]

  response_body-Hides : (r : MockResponse F) → All Hides (response_body host store random r)
  unfolding response_body
  response_body-Hides r =
      elim (Bool-cases (r.is_sse && has_events r.sse_events && store.replay_timing)) [
        | inl streamed ↦ rw streamed (tt, tt)
        | inr whole ↦ rw whole (tt, tt)
      ]

  abbrev pub answer : MockResponse F → List (Call F)
  answer r =
      set_status_code r.status_code ∷ (response_headers host r ++ response_body host store random r)

  pub respond_lem :
      (r : MockResponse F)
      → respond host store random r ≡ replay_delay host store random r ++ answer r
  unfolding respond
  respond_lem r = refl

  pub respond-Hides :
      (r : MockResponse F) → Keyed r.header_keys_lower → All Hides (respond host store random r)
  respond-Hides r keyed = rw respond_lem (
      All-append Hides (replay_delay host store random r) (answer r) (replay_delay-Hides r) (
        tt,
        All-append Hides (response_headers host r) (response_body host store random r)
            (response_headers-Hides host r keyed) (response_body-Hides r),
      ))

  pub respond-sets_type :
      (r : MockResponse F)
      → Keyed r.header_keys_lower
      → any_call sets_type (respond host store random r) ≡ true
  respond-sets_type r keyed = rw respond_lem (
      any_call-append_right sets_type (replay_delay host store random r) (answer r) (
        any_call-append_left sets_type (response_headers host r) (response_body host store random r)
          (response_headers-sets_type host r keyed)))

pub not_found-Hides : (F : Type 0) (logging : Bool) → All Hides (not_found {F = F} logging)
unfolding not_found contains to_lower_ascii_simple equal
not_found-Hides F true = (tt, (refl, (tt, (tt, tt))))
not_found-Hides F false = (tt, (refl, (tt, tt)))

pub not_found-sets_type :
    (F : Type 0) (logging : Bool) → any_call sets_type (not_found {F = F} logging) ≡ true
unfolding not_found to_lower_ascii_simple equal
not_found-sets_type F logging = refl
