-- ===== src/SumoClient/Post/Requests.antt =====
-- How often a post sends its body, and what it hands to S3.
use mathlib.Core.List.{append-nil, append_assoc}
use sumologic_lambda_extensi.Base.{
  ℕ, suc, ◌+◌, ◌-◌, ◌≤◌, ◌<◌, ◌≡◌, refl, ◌∙◌, ap, sym, ◌⊎◌, inl, inr, Bool, true, Option, some,
  List, [], ◌∷◌, ◌++◌, length, length-append, All, All-append, Error, Result, ok, err, Option-cases,
  pos_part, arith,
}
use sumologic_lambda_extensi.Base.Text.{Text}
use sumologic_lambda_extensi.Utils.RetryLaws.{
  Failed, start, again, Ends, exhausted, succeeded, gave_up,
}
use sumologic_lambda_extensi.Config.Defs.{LambdaExtensionConfig}
use sumologic_lambda_extensi.SumoClient.Services.{Bytes, Exchange, Services, ClientState}
use sumologic_lambda_extensi.SumoClient.Endpoint.{
  in_world, now, make_request, with_endpoint, send_request, get_http_endpoint, decrypt_endpoint,
  plaintext, log_stream,
}
use sumologic_lambda_extensi.SumoClient.Post.{judge, retry_post}

module _ (S : Services) where
  -- From `s` to `t` at most `n` requests were sent, all with this body, and nothing was uploaded.
  pub record Sends (body : Bytes) (n : ℕ) (s t : ClientState S) : Type 0 where
    pub sent : List Exchange
    pub requests : t.requests ≡ s.requests ++ sent
    pub bodies : All (λ r. r.request.body ≡ body) sent
    pub count : length sent ≤ n
    pub uploads : t.uploads ≡ s.uploads

  pub Sends-nothing :
      (body : Bytes) (n : ℕ) (s t : ClientState S)
      → t.requests ≡ s.requests
      → t.uploads ≡ s.uploads
      → Sends body n s t
  Sends-nothing body n s t r u = record {
    sent = [];
    requests = r ∙ sym (append-nil _);
    bodies = tt;
    count = omega arith;
    uploads = u;
  }

  pub Sends-trans :
      {body : Bytes} {m n : ℕ} {s t u : ClientState S}
      → Sends body m s t
      → Sends body n t u
      → Sends body (m + n) s u
  Sends-trans {body} a b = record {
    sent = a.sent ++ b.sent;
    requests = b.requests ∙ ap (λ l. l ++ b.sent) a.requests ∙ append_assoc _ a.sent b.sent;
    bodies = All-append (λ r. r.request.body ≡ body) a.sent b.sent a.bodies b.bodies;
    count = omega (arith, a.count, b.count, length-append a.sent b.sent);
    uploads = b.uploads ∙ a.uploads;
  }

  Sends-more :
      {body : Bytes} {m : ℕ} {s t : ClientState S} (n : ℕ)
      → m ≤ n
      → Sends body m s t
      → Sends body n s t
  Sends-more n h a = record {
    sent = a.sent;
    requests = a.requests;
    bodies = a.bodies;
    count = omega (arith, a.count);
    uploads = a.uploads;
  }

  module _ (cfg : LambdaExtensionConfig) where
    -- What the endpoint lookup leaves alone.
    abbrev pub Quiet : ClientState S → ClientState S → Type 0
    Quiet s t = (t.requests ≡ s.requests) × (t.uploads ≡ s.uploads)

    plaintext-Quiet : (blob : Bytes) (s : ClientState S) → Quiet s (plaintext S cfg blob s).1
    unfolding plaintext
    plaintext-Quiet blob s = ground arith

    decrypt_endpoint-Quiet : (s : ClientState S) → Quiet s (decrypt_endpoint S cfg s).1
    unfolding decrypt_endpoint
    decrypt_endpoint-Quiet s = grind (arith, plaintext-Quiet)

    pub get_http_endpoint-Quiet : (s : ClientState S) → Quiet s (get_http_endpoint S cfg s).1
    unfolding get_http_endpoint now
    get_http_endpoint-Quiet s = grind (arith, decrypt_endpoint-Quiet)

    send_request-Sends :
        (endpoint : Text) (body : Bytes) (s : ClientState S)
        → Sends body 1 s (send_request S cfg endpoint body s).1
    unfolding send_request log_stream now
    send_request-Sends endpoint body s = record {
      sent = _ ∷ [];
      requests = refl;
      bodies = (refl, tt);
      count = omega arith;
      uploads = refl;
    }

    with_endpoint-Sends :
        (body : Bytes) (r : Result Text) (s : ClientState S)
        → Sends body 1 s (with_endpoint S cfg body r s).1
    with_endpoint-Sends body (err e) s = Sends-nothing body 1 s s refl refl
    with_endpoint-Sends body (ok endpoint) s = elim (Option-cases (S.request_error endpoint)) [
      | inl e ↦ rw (e, with_endpoint) (send_request-Sends endpoint body s)
      | inr (e', e) ↦ rw (e, with_endpoint) (Sends-nothing body 1 s s refl refl)
    ]

    -- One call sends at most one request, with its body.
    pub make_request-Sends :
        (body : Bytes) (s : ClientState S) → Sends body 1 s (make_request S cfg body s).1
    unfolding make_request
    make_request-Sends body s =
        let q = get_http_endpoint-Quiet s in
        Sends-trans {m = 0} (Sends-nothing body 0 s _ q.0 q.1)
          (with_endpoint-Sends body (get_http_endpoint S cfg s).0 (get_http_endpoint S cfg s).1)

    retry_post-Sends :
        (body : Bytes) (k : ℕ) (s : ClientState S) → Sends body 1 s (retry_post S cfg body k s).1
    unfolding retry_post
    retry_post-Sends body k s =
        let r = make_request-Sends body (in_world S s (S.sleep cfg.retry_sleep_time s.world)) in
        record {
          sent = r.sent;
          requests = r.requests;
          bodies = r.bodies;
          count = r.count;
          uploads = r.uploads;
        }

    judge-attempt :
        (k : ℕ) (r : Result ℕ) (e : Error)
        → judge S cfg k r ≡ (true, some e)
        → k < cfg.max_retry_attempts
    judge-attempt k (err e') e h = ground arith
    judge-attempt k (ok code) e h = ground arith

    -- Another attempt follows only one whose number is below the maximum.
    retry_post-attempt :
        (body : Bytes) (k : ℕ) (s t : ClientState S) (e : Error)
        → retry_post S cfg body k s ≡ ((true, some e), t)
        → k < cfg.max_retry_attempts
    unfolding retry_post
    retry_post-attempt body k s t e h =
        judge-attempt k
          (make_request S cfg body (in_world S s (S.sleep cfg.retry_sleep_time s.world))).0 e
          (ap (λ p. p.0) h)

    pub record Tried (body : Bytes) (k : ℕ) (s t : ClientState S) : Type 0 where
      pub sends : Sends body (k - 1) s t
      pub first : 1 ≤ k
      pub limit : (k ≤ 1) ⊎ (k ≤ cfg.max_retry_attempts)

    pub Failed-Tried :
        (body : Bytes) {s t : ClientState S} {k : ℕ}
        → Failed (retry_post S cfg body) 1 s k t
        → Tried body k s t
    Failed-Tried body {s} start = record {
      sends = Sends-nothing body 0 s s refl refl;
      first = omega arith;
      limit = inl (omega arith);
    }
    Failed-Tried body {s} (again {k} {t} {u} e f q) =
        let r = Failed-Tried body f in
        let one : Sends body 1 t u = rw (ap (λ p. p.1) q) at (retry_post-Sends body k t) in
        record {
          sends = Sends-more (suc k - 1) (omega (arith, r.first)) (Sends-trans r.sends one);
          first = omega (arith, r.first);
          limit = inr (omega (arith, retry_post-attempt body k t u e q));
        }

    -- The attempts of a loop of retries.
    pub record Retried (body : Bytes) (s t : ClientState S) : Type 0 where
      pub attempts : ℕ
      pub sends : Sends body attempts s t
      pub retries : attempts ≤ pos_part cfg.num_retry
      pub limit : (attempts ≤ 1) ⊎ (attempts ≤ cfg.max_retry_attempts)

    last-Retried :
        (body : Bytes) (k : ℕ) {s t : ClientState S} (r : (Bool × Option Error) × ClientState S)
        → k < pos_part cfg.num_retry + 1
        → Tried body k s t
        → retry_post S cfg body k t ≡ r
        → Retried body s r.1
    last-Retried body k {s} {t} r h v q = record {
      attempts = k;
      sends =
          Sends-more k (omega (arith, v.first))
            (Sends-trans v.sends (rw (ap (λ p. p.1) q) at (retry_post-Sends body k t)));
      retries = omega arith;
      limit = v.limit;
    }

    pub Ends-Retried :
        (body : Bytes) {s : ClientState S} {e : Option Error} {t : ClientState S}
        → Ends (retry_post S cfg body) 1 s (pos_part cfg.num_retry + 1) e t
        → Retried body s t
    Ends-Retried body {s} {e} {t} (exhausted f) =
        let v = Failed-Tried body f in
        record {
          attempts = pos_part cfg.num_retry;
          sends = Sends-more (pos_part cfg.num_retry) (omega arith) v.sends;
          retries = omega arith;
          limit = ground (arith, v.limit);
        }
    Ends-Retried body (succeeded {k} cont h f q) = last-Retried body k _ h (Failed-Tried body f) q
    Ends-Retried body (gave_up {k} e h f q) = last-Retried body k _ h (Failed-Tried body f) q
