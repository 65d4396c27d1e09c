-- ===== src/SumoClient/Endpoint/Caching.antt =====
-- The cache of the decrypted endpoint: what its expiry time is set to, and what follows.
use sumologic_lambda_extensi.Base.{
  ◌≤◌, ◌≡◌, false, List, [], ◌∷◌, Result, ok, err, Result-cases, Option-cases, inl, inr, arith,
  Bool-cases,
}
use sumologic_lambda_extensi.Base.Text.{Text, is_empty}
use sumologic_lambda_extensi.Config.Defs.{LambdaExtensionConfig}
use sumologic_lambda_extensi.SumoClient.Services.{
  Bytes, Services, IsMonotone, ClientState, initial_state,
}
use sumologic_lambda_extensi.SumoClient.Endpoint.{
  now, in_world, decrypt_input, plaintext, decrypt_endpoint, get_http_endpoint, log_stream,
  send_request, with_endpoint, make_request,
}

-- The expiry time of the cache is not in the future.
abbrev pub IsStale : (S : Services) → ClientState S → Type 0
IsStale S s = s.endpoint_cache_time ≤ S.clock s.world

module _ (S : Services) (m : IsMonotone S) where
  -- Time passes, and the rest stays.
  abbrev pub later : ClientState S → ClientState S
  later s = in_world S s (S.pass s.world)

  pub initial_state-IsStale : (w : S.World) → IsStale S (initial_state S w)
  unfolding initial_state
  initial_state-IsStale w = omega (arith, m.pass_mono w)

  later-IsStale : (s : ClientState S) → IsStale S s → IsStale S (later s)
  later-IsStale s h = omega (arith, m.pass_mono s.world)

  module _ (cfg : LambdaExtensionConfig) where
    plaintext-IsStale :
        (blob : Bytes) (s : ClientState S) → IsStale S s → IsStale S (plaintext S cfg blob s).1
    unfolding plaintext
    plaintext-IsStale blob s h =
        let r = S.kms_decrypt (decrypt_input S cfg blob) s.world in
        elim (Result-cases r.0) [
          | inl (text, e) ↦ rw (e, plaintext) (m.pass_mono r.1)
          | inr (e', e) ↦
              rw (e, plaintext) (omega (arith, m.kms_mono (decrypt_input S cfg blob) s.world))
        ]

    decrypt_endpoint-IsStale :
        (s : ClientState S) → IsStale S s → IsStale S (decrypt_endpoint S cfg s).1
    unfolding decrypt_endpoint
    decrypt_endpoint-IsStale s h =
        let s1 = in_world S s (S.load_aws_config s.world).1 in
        let h1 : IsStale S s1 = omega (arith, m.aws_mono s.world) in
        elim (Option-cases (S.load_aws_config s.world).0) [
          | inr (e', e) ↦ rw (e, decrypt_endpoint) h1
          | inl e ↦ elim (Result-cases (S.decode_base64 cfg.sumo_http_endpoint)) [
            | inr (e', d) ↦ rw (e, decrypt_endpoint, d) h1
            | inl (blob, d) ↦ rw (e, decrypt_endpoint, d) (plaintext-IsStale blob s1 h1)
          ]
        ]

    -- With a key, and from a state whose cache has run out, the endpoint is decrypted anew, whatever
    -- `KmsCacheSeconds` says, after two readings of the clock.
    get_http_endpoint-decrypts :
        (s : ClientState S)
        → IsStale S s
        → is_empty cfg.kms_key_id ≡ false
        → get_http_endpoint S cfg s ≡ decrypt_endpoint S cfg (later (later s))
    unfolding get_http_endpoint now
    get_http_endpoint-decrypts s h k = ground (arith, m.pass_mono s.world)

    pub get_http_endpoint-IsStale :
        (s : ClientState S) → IsStale S s → IsStale S (get_http_endpoint S cfg s).1
    unfolding get_http_endpoint
    get_http_endpoint-IsStale s h = elim (Bool-cases (is_empty cfg.kms_key_id)) [
      | inl plain ↦ rw plain h
      | inr key ↦
          rw (get_http_endpoint-decrypts s h key) (
            decrypt_endpoint-IsStale (later (later s))
              (later-IsStale (later s) (later-IsStale s h)))
    ]

    send_request-IsStale :
        (endpoint : Text) (body : Bytes) (s : ClientState S)
        → IsStale S s
        → IsStale S (send_request S cfg endpoint body s).1
    unfolding send_request log_stream now
    send_request-IsStale endpoint body s h =
        omega (arith, m.pass_mono s.world, m.http_mono _ (S.pass s.world))

    with_endpoint-IsStale :
        (body : Bytes) (r : Result Text) (s : ClientState S)
        → IsStale S s
        → IsStale S (with_endpoint S cfg body r s).1
    with_endpoint-IsStale body (err e) s h = h
    with_endpoint-IsStale body (ok endpoint) s h = elim (Option-cases (S.request_error endpoint)) [
      | inl e ↦ rw (e, with_endpoint) (send_request-IsStale endpoint body s h)
      | inr (e', e) ↦ rw (e, with_endpoint) h
    ]

    pub make_request-IsStale :
        (body : Bytes) (s : ClientState S) → IsStale S s → IsStale S (make_request S cfg body s).1
    unfolding make_request
    make_request-IsStale body s h = with_endpoint-IsStale body _ _ (get_http_endpoint-IsStale s h)

    -- The state behind requests with these bodies.
    unfoldable pub after_requests : List Bytes → ClientState S → ClientState S
    after_requests [] s = s
    after_requests (body ∷ bodies) s = after_requests bodies (make_request S cfg body s).1

    after_requests-IsStale :
        (bodies : List Bytes) (s : ClientState S)
        → IsStale S s
        → IsStale S (after_requests bodies s)
    unfolding after_requests
    after_requests-IsStale [] s h = h
    after_requests-IsStale (body ∷ bodies) s h =
        after_requests-IsStale bodies (make_request S cfg body s).1 (make_request-IsStale body s h)

    -- With a KMS key and a clock that does not go back, the cached endpoint is never used: after any
    -- requests from the start on, the endpoint is decrypted anew, whatever `KmsCacheSeconds` is.
    pub get_http_endpoint-never_cached :
        (bodies : List Bytes) (w : S.World)
        → is_empty cfg.kms_key_id ≡ false
        → let s = after_requests bodies (initial_state S w) in
          get_http_endpoint S cfg s ≡ decrypt_endpoint S cfg (later (later s))
    get_http_endpoint-never_cached bodies w k =
        get_http_endpoint-decrypts (after_requests bodies (initial_state S w))
          (after_requests-IsStale bodies _ (initial_state-IsStale w)) k
