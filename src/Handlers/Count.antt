-- ===== src/Handlers/Count.antt =====
-- How many calls of a kind a handler makes.
use auto_mock_tools.Prelude.{
  ◌≡◌, refl, Bool, true, false, inl, inr, Bool-cases, List, [], ◌∷◌, ◌++◌, if◌then◌else◌, arith,
  Bytes, codes, equal, contains, Assoc, ℕ, suc, ◌+◌,
}
use auto_mock_tools.Host.{Host}
use auto_mock_tools.Storage.Types.{MockResponse}
use auto_mock_tools.Handlers.Calls.{
  Call, set_status_code, set_header, set_content_type, set_body, stream_body, sleep,
  exclude_headers_lower,
}
use auto_mock_tools.Handlers.{copy_headers_from, response_headers}

module _ {F : Type 0} where
  abbrev pub is_status : Call F → Bool
  is_status (set_status_code code) = true
  is_status _ = false

  abbrev pub is_body : Call F → Bool
  is_body (set_body body) = true
  is_body (stream_body events scale) = true
  is_body _ = false

  abbrev pub waits : Call F → Bool
  waits (sleep t) = true
  waits (stream_body events scale) = true
  waits _ = false

  -- how many calls pass the test
  abbrev pub count : (Call F → Bool) → List (Call F) → ℕ
  count p [] = 0
  count p (c ∷ cs) = if p c then suc (count p cs) else count p cs

  pub count-append :
      (p : Call F → Bool) (xs ys : List (Call F)) → count p (xs ++ ys) ≡ count p xs + count p ys
  count-append p [] ys = omega arith
  count-append p (x ∷ xs) ys = ground (arith, count-append p xs ys)

  -- The test passes over every call that only sets a header.
  pub record PassesHeaders (p : Call F → Bool) : Type 0 where
    pub header : (k v : Bytes) → p (set_header k v) ≡ false
    pub content_type : (v : Bytes) → p (set_content_type v) ≡ false

module _ {F : Type 0} (host : Host F) (p : Call F → Bool) (passes : PassesHeaders p) where
  count-copy_headers_from :
      (headers : Assoc Bytes) (flag : Bool) (m : Assoc Bytes)
      → count p (copy_headers_from host headers flag m).1 ≡ 0
  unfolding copy_headers_from
  count-copy_headers_from headers flag [] = refl
  count-copy_headers_from headers flag ((key_lower, key) ∷ m) =
      elim (Bool-cases (contains exclude_headers_lower key_lower)) [
        | inl excluded ↦ rw excluded (count-copy_headers_from headers flag m)
        | inr free ↦
            rw (free, passes.header)
              (count-copy_headers_from headers
                (if equal key_lower (codes "content-type") then true else flag) m)
      ]

  pub count-response_headers : (r : MockResponse F) → count p (response_headers host r) ≡ 0
  unfolding response_headers
  count-response_headers r =
      let copied = copy_headers_from host r.headers false (host.visit _ r.header_keys_lower) in
      let none_copied =
        count-copy_headers_from r.headers false (host.visit _ r.header_keys_lower) in
      elim (Bool-cases copied.0) [
        | inl set ↦ rw set none_copied
        | inr unset ↦ rw (unset, count-append, none_copied, passes.content_type) refl
      ]
