-- ===== src/SumoClient/Post/Effects.antt =====
-- What `postToSumo` does on every path, and when it reports an error.
use sumologic_lambda_extensi.Base.{
  ◌+◌, ◌≤◌, ◌≡◌, refl, ◌∙◌, ◌⊎◌, inl, inr, true, false, Option, none, some, List, [], ◌∷◌, ◌++◌,
  length, All, Error, Result, ok, err, Bool-cases, pos_part, arith,
}
use sumologic_lambda_extensi.Base.Text.{Text}
use sumologic_lambda_extensi.Utils.{retry}
use sumologic_lambda_extensi.Utils.RetryLaws.{retry-Ends}
use sumologic_lambda_extensi.Config.Defs.{LambdaExtensionConfig}
use sumologic_lambda_extensi.SumoClient.Codecs.{compress}
use sumologic_lambda_extensi.SumoClient.Services.{Bytes, Exchange, Services, Upload, ClientState}
use sumologic_lambda_extensi.SumoClient.Endpoint.{now, make_request}
use sumologic_lambda_extensi.SumoClient.Post.{
  is_failed, retry_post, post_body, post_to_sumo, after_retries, failover_handler, get_s3_key_name,
  upload_as, upload_to_s3,
}
use sumologic_lambda_extensi.SumoClient.Post.Requests.{
  Sends, Sends-trans, make_request-Sends, Retried, Ends-Retried,
}

module _ (S : Services) (cfg : LambdaExtensionConfig) where
  -- What a post did: the requests that it sent and the object that it stored, if any.
  pub record Posts (body : Bytes) (s t : ClientState S) : Type 0 where
    pub sent : List Exchange
    pub requests : t.requests ≡ s.requests ++ sent
    pub bodies : All (λ r. r.request.body ≡ body) sent
    pub retries : length sent ≤ 1 + pos_part cfg.num_retry
    pub limit : (length sent ≤ 2) ⊎ (length sent ≤ 1 + cfg.max_retry_attempts)
    pub stored :
        (t.uploads ≡ s.uploads)
        ⊎ ((cfg.enable_failover ≡ true)
            × (key : Text) × (e : Option Error) × (t.uploads
                ≡ s.uploads
                  ++ record { bucket = cfg.s3_bucket_name; key = key; content = body; error = e }
                    ∷ []))

  abbrev Stored : Bytes → List Upload → List Upload → Type 0
  Stored body old new =
      (new ≡ old)
      ⊎ ((cfg.enable_failover ≡ true)
          × (key : Text) × (e : Option Error) × (new
              ≡ old
                ++ record { bucket = cfg.s3_bucket_name; key = key; content = body; error = e }
                  ∷ []))

  pub get_s3_key_name-keeps :
      (s : ClientState S)
      → ((get_s3_key_name S cfg s).1.requests ≡ s.requests)
        × ((get_s3_key_name S cfg s).1.uploads ≡ s.uploads)
  unfolding get_s3_key_name now
  get_s3_key_name-keeps s = (refl, refl)

  upload_as-Stored :
      (body : Bytes) (r : Result Text) (s : ClientState S)
      → cfg.enable_failover ≡ true
      → ((upload_as S cfg body r s).1.requests ≡ s.requests)
        × Stored body s.uploads (upload_as S cfg body r s).1.uploads
  unfolding upload_to_s3
  upload_as-Stored body (err e) s h = (refl, inl refl)
  upload_as-Stored body (ok key) s h =
      (refl, inr (h, key, (S.upload cfg.s3_bucket_name key body s.world).0, refl))

  pub failover_handler_on :
      (body : Bytes) (s : ClientState S)
      → cfg.enable_failover ≡ true
      → failover_handler S cfg body s
        ≡ upload_as S cfg body (get_s3_key_name S cfg s).0 (get_s3_key_name S cfg s).1
  unfolding failover_handler
  failover_handler_on body s h = ground arith

  failover_handler_off :
      (body : Bytes) (s : ClientState S)
      → cfg.enable_failover ≡ false
      → failover_handler S cfg body s ≡ (none, s)
  unfolding failover_handler
  failover_handler_off body s h = ground arith

  pub failover_handler-Stored :
      (body : Bytes) (s : ClientState S)
      → ((failover_handler S cfg body s).1.requests ≡ s.requests)
        × Stored body s.uploads (failover_handler S cfg body s).1.uploads
  failover_handler-Stored body s = elim (Bool-cases cfg.enable_failover) [
    | inl h ↦
        let k = get_s3_key_name-keeps s in
        let u = upload_as-Stored body (get_s3_key_name S cfg s).0 (get_s3_key_name S cfg s).1 h in
        rw (failover_handler_on body s h) (u.0 ∙ k.0, rw k.1 at (u.1))
    | inr h ↦ rw (failover_handler_off body s h) (refl, inl refl)
  ]

  after_retries-Stored :
      (body : Bytes) (e : Option Error) (s : ClientState S)
      → ((after_retries S cfg body e s).1.requests ≡ s.requests)
        × Stored body s.uploads (after_retries S cfg body e s).1.uploads
  unfolding after_retries
  after_retries-Stored body none s = (refl, inl refl)
  after_retries-Stored body (some e) s = ground (arith, failover_handler-Stored body s)

  -- The retries behind a first request, and then the failover.
  behind_retries-Posts :
      (body : Bytes) (s t u v : ClientState S)
      → Sends S body 1 s t
      → Retried S cfg body t u
      → v.requests ≡ u.requests
      → Stored body u.uploads v.uploads
      → Posts body s v
  behind_retries-Posts body s t u v a r q st =
      let b = Sends-trans S a r.sends in
      record {
        sent = b.sent;
        requests = q ∙ b.requests;
        bodies = b.bodies;
        retries = omega (arith, b.count, r.retries);
        limit = ground (arith, r.limit, b.count);
        stored = rw b.uploads at st;
      }

  post_body-Posts : (body : Bytes) (s : ClientState S) → Posts body s (post_body S cfg body s).1
  unfolding post_body
  post_body-Posts body s = elim (Bool-cases (is_failed (make_request S cfg body s).0)) [
    | inl h ↦ rw h (
        let t = (make_request S cfg body s).1 in
        let u = retry (retry_post S cfg body) cfg.num_retry t in
        let w = after_retries-Stored body u.0 u.1 in
        behind_retries-Posts body s t u.1 _ (make_request-Sends S cfg body s)
          (Ends-Retried S cfg body (retry-Ends (retry_post S cfg body) cfg.num_retry t)) w.0 w.1)
    | inr h ↦ rw h (
        let b = make_request-Sends S cfg body s in
        record {
          sent = b.sent;
          requests = b.requests;
          bodies = b.bodies;
          retries = omega (arith, b.count);
          limit = inl (omega (arith, b.count));
          stored = inl b.uploads;
        })
  ]

  -- When the text can be compressed, a post sends nothing but the compressed text: once, and again at most
  -- `NumRetry` times and at most once or `MaxRetryAttempts` times; and it stores at most one object, the
  -- same bytes in the configured bucket, and that only with the failover enabled.
  pub post_to_sumo-Posts :
      (text body : Bytes) (s : ClientState S)
      → compress S text ≡ ok body
      → Posts body s (post_to_sumo S cfg text s).1
  unfolding post_to_sumo
  post_to_sumo-Posts text body s e = rw (e, post_to_sumo) (post_body-Posts body s)
