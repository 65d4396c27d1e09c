-- ===== src/SumoClient/Post/Delivery.antt =====
-- What it means that `postToSumo` reports no error.
use mathlib.Core.List.{append-nil}
use sumologic_lambda_extensi.Base.{
  String, ℕ, ◌≡◌, refl, ◌∙◌, ap, sym, ◌⊎◌, inl, inr, Bool, true, false, Option, none, some, List,
  [], ◌∷◌, ◌++◌, Error, Result, ok, err, Option-cases, Bool-cases, arith,
}
use sumologic_lambda_extensi.Base.Text.{Text}
use sumologic_lambda_extensi.Utils.{retry}
use sumologic_lambda_extensi.Utils.RetryLaws.{Ends, succeeded, retry-Ends}
use sumologic_lambda_extensi.Config.Defs.{LambdaExtensionConfig}
use sumologic_lambda_extensi.SumoClient.Codecs.{compress}
use sumologic_lambda_extensi.SumoClient.Services.{Bytes, Exchange, Upload, Services, ClientState}
use sumologic_lambda_extensi.SumoClient.Endpoint.{
  in_world, now, log_stream, make_request, send_request, with_endpoint, get_http_endpoint,
}
use sumologic_lambda_extensi.SumoClient.Post.{
  is_bad_status, is_failed, judge, retry_post, post_body, post_to_sumo, after_retries,
  failover_handler, get_s3_key_name, upload_as, upload_to_s3, wrap_error,
}
use sumologic_lambda_extensi.SumoClient.Post.Requests.{
  Sends, Sends-trans, make_request-Sends, get_http_endpoint-Quiet, Failed-Tried, Ends-Retried,
}
use sumologic_lambda_extensi.SumoClient.Post.Effects.{failover_handler_on, get_s3_key_name-keeps}

module _ (S : Services) (cfg : LambdaExtensionConfig) (body : Bytes) where
  -- From `s` to `t`, the last request that was sent carried the body, and was answered by a status
  -- that the code takes as success: 200, 302 or from 500 on.
  pub record Accepts (s t : ClientState S) : Type 0 where
    pub before : List Exchange
    pub last : Exchange
    pub requests : t.requests ≡ (s.requests ++ before) ++ last ∷ []
    pub same : last.request.body ≡ body
    pub code : ℕ
    pub answer : last.answer ≡ ok code
    pub good : is_bad_status code ≡ false

  abbrev pub put : Text → Upload
  put key = record { bucket = cfg.s3_bucket_name; key = key; content = body; error = none }

  -- From `s` to `t` the bytes were put in the bucket, and the uploader reported no error.
  pub record Stores (s t : ClientState S) : Type 0 where
    pub key : Text
    pub uploads : t.uploads ≡ s.uploads ++ put key ∷ []

  abbrev Answered : ℕ → ClientState S → ClientState S → Type 0
  Answered code s t =
      (x : Exchange) × (t.requests ≡ s.requests ++ x ∷ [])
      × (x.request.body ≡ body)
      × (x.answer ≡ ok code)

  send_request-Answered :
      (endpoint : Text) (s : ClientState S) (code : ℕ)
      → (send_request S cfg endpoint body s).0 ≡ ok code
      → Answered code s (send_request S cfg endpoint body s).1
  unfolding send_request log_stream now
  send_request-Answered endpoint s code h = (_, refl, refl, h)

  with_endpoint-Answered :
      (r : Result Text) (s : ClientState S) (code : ℕ)
      → (with_endpoint S cfg body r s).0 ≡ ok code
      → Answered code s (with_endpoint S cfg body r s).1
  with_endpoint-Answered (err e) s code h = cc
  with_endpoint-Answered (ok endpoint) s code h = elim (Option-cases (S.request_error endpoint)) [
    | inl e ↦
        rw (e, with_endpoint) (send_request-Answered endpoint s code (rw (e, with_endpoint) at h))
    | inr (e', e) ↦ cc (rw (e, with_endpoint) at h)
  ]

  make_request-Answered :
      (s : ClientState S) (code : ℕ)
      → (make_request S cfg body s).0 ≡ ok code
      → Answered code s (make_request S cfg body s).1
  unfolding make_request
  make_request-Answered s code h =
      let r = get_http_endpoint S cfg s in
      let a = with_endpoint-Answered r.0 r.1 code h in
      (a.0, a.1 ∙ ap (λ l. l ++ a.0 ∷ []) (get_http_endpoint-Quiet S cfg s).0, a.2, a.3)

  judge-none :
      (k : ℕ) (r : Result ℕ) (cont : Bool)
      → judge S cfg k r ≡ (cont, none)
      → (code : ℕ) × (r ≡ ok code) × (is_bad_status code ≡ false)
  judge-none k (err e) cont h = cc
  judge-none k (ok code) cont h = (code, refl, ground arith)

  -- The attempt that ends the retries without an error, behind requests that lead from `r` to `s`.
  retry_post-Accepts :
      (k n : ℕ) (r s t : ClientState S) (cont : Bool)
      → Sends S body n r s
      → retry_post S cfg body k s ≡ ((cont, none), t)
      → Accepts r t
  unfolding retry_post
  retry_post-Accepts k n r s t cont a h =
      let s' = in_world S s (S.sleep cfg.retry_sleep_time s.world) in
      let j = judge-none k (make_request S cfg body s').0 cont (ap (λ p. p.0) h) in
      let m = make_request-Answered s' j.0 j.1 in
      record {
        before = a.sent;
        last = m.0;
        requests =
            ap (λ u. u.requests) (sym (ap (λ p. p.1) h)) ∙ m.1 ∙ ap (λ l. l ++ m.0 ∷ []) a.requests;
        same = m.2;
        code = j.0;
        answer = m.3;
        good = j.2;
      }

  Ends-Accepts :
      {limit : ℕ} (r : ClientState S) {s : ClientState S} {e : Option Error} {t : ClientState S}
      → Sends S body 1 r s
      → Ends (retry_post S cfg body) 1 s limit e t
      → e ≡ none
      → Accepts r t
  Ends-Accepts r {s} a (succeeded {k} {t} {u} cont h f q) e =
      retry_post-Accepts k _ r t u cont (Sends-trans S a (Failed-Tried S cfg body f).sends) q
  Ends-Accepts r a _ e = cc

  wrap_error-none : (m : String) (e : Option Error) → wrap_error S cfg m e ≡ none → e ≡ none
  wrap_error-none m none h = refl
  wrap_error-none m (some e) h = cc

  upload_as-Stores :
      (k : Result Text) (s : ClientState S)
      → (upload_as S cfg body k s).0 ≡ none
      → Stores s (upload_as S cfg body k s).1
  unfolding upload_to_s3
  upload_as-Stores (err e) s h = cc
  upload_as-Stores (ok key) s h = record {
    key = key;
    uploads =
        ap
          (λ e.
            s.uploads
            ++ record { bucket = cfg.s3_bucket_name; key = key; content = body; error = e } ∷ [])
          (wrap_error-none _ _ h);
  }

  pub failover_handler-Stores :
      (s : ClientState S)
      → cfg.enable_failover ≡ true
      → (failover_handler S cfg body s).0 ≡ none
      → Stores s (failover_handler S cfg body s).1
  failover_handler-Stores s on h =
      let k = get_s3_key_name S cfg s in
      let e = failover_handler_on S cfg body s on in
      let u = upload_as-Stores k.0 k.1 (rw e at h) in
      record {
        key = u.key;
        uploads =
            ap (λ p. p.1.uploads) e
            ∙ u.uploads
            ∙ ap (λ l. l ++ put u.key ∷ []) (get_s3_key_name-keeps S cfg s).1;
      }

  after_retries_on :
      (e : Error) (s : ClientState S)
      → cfg.enable_failover ≡ true
      → after_retries S cfg body (some e) s ≡ failover_handler S cfg body s
  unfolding after_retries
  after_retries_on e s on = ground arith

  after_retries-delivers :
      (r s : ClientState S) (e : Option Error)
      → cfg.enable_failover ≡ true
      → s.uploads ≡ r.uploads
      → (e ≡ none → Accepts r s)
      → (after_retries S cfg body e s).0 ≡ none
      → Accepts r (after_retries S cfg body e s).1 ⊎ Stores r (after_retries S cfg body e s).1
  after_retries-delivers r s none on q accepted h = unfold after_retries in inl (accepted refl)
  after_retries-delivers r s (some e) on q accepted h =
      let a = after_retries_on e s on in
      let u = failover_handler-Stores s on (rw a at h) in
      rw a (inr (record { key = u.key; uploads = u.uploads ∙ ap (λ l. l ++ put u.key ∷ []) q }))

  is_failed-false :
      (r : Result ℕ)
      → is_failed r ≡ false
      → (code : ℕ) × (r ≡ ok code) × (is_bad_status code ≡ false)
  is_failed-false (err e) h = cc
  is_failed-false (ok code) h = (code, refl, h)

  post_body-delivers :
      (s : ClientState S)
      → cfg.enable_failover ≡ true
      → (post_body S cfg body s).0 ≡ none
      → Accepts s (post_body S cfg body s).1 ⊎ Stores s (post_body S cfg body s).1
  unfolding post_body
  post_body-delivers s on h = elim (Bool-cases (is_failed (make_request S cfg body s).0)) [
    | inl failed ↦ rw failed (
        let t = (make_request S cfg body s).1 in
        let one = make_request-Sends S cfg body s in
        let u = retry (retry_post S cfg body) cfg.num_retry t in
        let ends = retry-Ends (retry_post S cfg body) cfg.num_retry t in
        after_retries-delivers s u.1 u.0 on
          ((Ends-Retried S cfg body ends).sends.uploads ∙ one.uploads) (Ends-Accepts s one ends)
          (rw failed at h))
    | inr fine ↦ rw fine (
        let j = is_failed-false (make_request S cfg body s).0 fine in
        let m = make_request-Answered s j.0 j.1 in
        inl (record {
          before = [];
          last = m.0;
          requests = rw append-nil (m.1);
          same = m.2;
          code = j.0;
          answer = m.3;
          good = j.2;
        }))
  ]

  -- With the failover enabled, a post that reports no error ended with a request that carried the
  -- compressed text and was answered by a status that the code takes as success, or with an upload of the
  -- compressed text that succeeded.
  pub post_to_sumo-delivers :
      (text : Bytes) (s : ClientState S)
      → compress S text ≡ ok body
      → cfg.enable_failover ≡ true
      → (post_to_sumo S cfg text s).0 ≡ none
      → Accepts s (post_to_sumo S cfg text s).1 ⊎ Stores s (post_to_sumo S cfg text s).1
  unfolding post_to_sumo
  post_to_sumo-delivers text s c on h =
      rw (c, post_to_sumo) (post_body-delivers s on (rw (c, post_to_sumo) at h))
