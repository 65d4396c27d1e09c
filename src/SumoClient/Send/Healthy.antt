-- ===== src/SumoClient/Send/Healthy.antt =====
-- Sending while the endpoint takes everything.
use mathlib.Core.List.{append-nil, append_assoc}
use sumologic_lambda_extensi.Base.{
  ℕ, ◌≡◌, refl, ◌∙◌, ap, sym, subst, true, false, Option, none, List, [], ◌∷◌, ◌++◌, map, String,
  Error, Result, ok,
}
use sumologic_lambda_extensi.Base.Text.{Text, is_empty}
use sumologic_lambda_extensi.Json.{JsonMap}
use sumologic_lambda_extensi.Config.Defs.{LambdaExtensionConfig}
use sumologic_lambda_extensi.SumoClient.Codecs.{compress, transform_bytes-ok}
use sumologic_lambda_extensi.SumoClient.Services.{Bytes, Request, Exchange, Services, ClientState}
use sumologic_lambda_extensi.SumoClient.Chunks.{create_chunks}
use sumologic_lambda_extensi.SumoClient.Enhance.{Outcome, done, enhance_logs}
use sumologic_lambda_extensi.SumoClient.Enhance.Panics.{enhance_logs-Untouched}
use sumologic_lambda_extensi.SumoClient.Endpoint.{
  now, log_stream, send_request, with_endpoint, get_http_endpoint, make_request,
}
use sumologic_lambda_extensi.SumoClient.Post.{is_failed, post_body, post_to_sumo}
use sumologic_lambda_extensi.SumoClient.Send.{
  add_failure, count_error, post_all, post_chunks, send_items, send_enhanced, send_logs,
}

-- The endpoint is not encrypted and is a URL, every request is answered by 200, and every text can be
-- compressed, by `zip`.
pub record IsHealthy (S : Services) (cfg : LambdaExtensionConfig) (zip : Bytes → Bytes)
    : Type 0 where
  pub plain : is_empty cfg.kms_key_id ≡ true
  pub url : S.request_error cfg.sumo_http_endpoint ≡ none
  pub answers : (r : Request) (w : S.World) → (S.http_do r w).0 ≡ ok 200
  pub compresses : (b : Bytes) → compress S b ≡ ok (zip b)

abbrev pub bodies : List Exchange → List Bytes
bodies [] = []
bodies (x ∷ xs) = x.request.body ∷ bodies xs

bodies-append : (xs ys : List Exchange) → bodies (xs ++ ys) ≡ bodies xs ++ bodies ys
bodies-append [] ys = refl
bodies-append (x ∷ xs) ys = ap (λ l. x.request.body ∷ l) (bodies-append xs ys)

module _ (S : Services) (cfg : LambdaExtensionConfig) (zip : Bytes → Bytes)
    (h : IsHealthy S cfg zip) where
  -- The bodies were sent, in this order and nothing else, and nothing was stored.
  pub record Delivered (sent : List Bytes) (s t : ClientState S) : Type 0 where
    pub requests : bodies t.requests ≡ bodies s.requests ++ sent
    pub uploads : t.uploads ≡ s.uploads

  pub Delivered-trans :
      (bs cs : List Bytes) (s t u : ClientState S)
      → Delivered bs s t
      → Delivered cs t u
      → Delivered (bs ++ cs) s u
  Delivered-trans bs cs s t u a b = record {
    requests = b.requests ∙ ap (λ l. l ++ cs) a.requests ∙ append_assoc (bodies s.requests) bs cs;
    uploads = b.uploads ∙ a.uploads;
  }

  send_request-Delivered :
      (endpoint : Text) (body : Bytes) (s : ClientState S)
      → ((send_request S cfg endpoint body s).0 ≡ ok 200)
        × Delivered (body ∷ []) s (send_request S cfg endpoint body s).1
  unfolding send_request log_stream now
  send_request-Delivered endpoint body s =
      (h.answers _ _, record { requests = bodies-append s.requests _; uploads = refl })

  make_request-sends :
      (body : Bytes) (s : ClientState S)
      → make_request S cfg body s ≡ send_request S cfg cfg.sumo_http_endpoint body s
  unfolding make_request get_http_endpoint
  make_request-sends body s = rw (h.plain) (rw (h.url, with_endpoint) refl)

  post_body-fine :
      (body : Bytes) (s : ClientState S)
      → is_failed (make_request S cfg body s).0 ≡ false
      → post_body S cfg body s ≡ (none, (make_request S cfg body s).1)
  unfolding post_body
  post_body-fine body s fine = rw fine refl

  post_body-Delivered :
      (body : Bytes) (s : ClientState S)
      → ((post_body S cfg body s).0 ≡ none) × Delivered (body ∷ []) s (post_body S cfg body s).1
  post_body-Delivered body s =
      let m = make_request-sends body s in
      let d = send_request-Delivered cfg.sumo_http_endpoint body s in
      let e =
        post_body-fine body s (ap is_failed (ap (λ r. r.0) m ∙ d.0))
        ∙ ap (λ (r : Result ℕ × ClientState S). (none, r.1)) m in
      (
        ap (λ r. r.0) e,
        subst (λ (r : Option Error × ClientState S). Delivered (body ∷ []) s r.1) (sym e) d.1,
      )

  post_to_sumo-Delivered :
      (text : Bytes) (s : ClientState S)
      → ((post_to_sumo S cfg text s).0 ≡ none)
        × Delivered (zip text ∷ []) s (post_to_sumo S cfg text s).1
  unfolding post_to_sumo
  post_to_sumo-Delivered text s =
      rw (h.compresses text, post_to_sumo) (post_body-Delivered (zip text) s)

  post_all-Delivered :
      (chunks : List Bytes) (n : ℕ) (s : ClientState S)
      → ((post_all S cfg chunks n s).0 ≡ n)
        × Delivered (map zip chunks) s (post_all S cfg chunks n s).1
  unfolding post_all
  post_all-Delivered [] n s = (refl, record { requests = sym (append-nil _); uploads = refl })
  post_all-Delivered (chunk ∷ chunks) n s =
      let p = post_to_sumo-Delivered chunk s in
      let rest = post_all-Delivered chunks n (post_to_sumo S cfg chunk s).1 in
      rw (ap (λ e. add_failure e n) p.0, post_all)
        (rest.0, Delivered-trans (zip chunk ∷ []) (map zip chunks) s _ _ p.1 rest.1)

  pub send_items-Delivered :
      (cut posted : String) (n : ℕ) (items : List JsonMap) (s : ClientState S)
      → (create_chunks S.marshal cfg.max_data_payload_size items).1 ≡ none
      → ((send_items S cfg cut posted n items s).0 ≡ count_error posted n)
        × Delivered
            (map zip (create_chunks S.marshal cfg.max_data_payload_size items).0)
            s
            (send_items S cfg cut posted n items s).1
  unfolding send_items
  send_items-Delivered cut posted n items s e =
      let chunks = (create_chunks S.marshal cfg.max_data_payload_size items).0 in
      let d = post_all-Delivered chunks n s in
      subst
        (λ (o : Option Error).
          let r = post_chunks S cfg cut posted n (chunks, o) s in
          (r.0 ≡ count_error posted n) × Delivered (map zip chunks) s r.1)
        (sym e) (ap (count_error posted) d.0, d.1)

  -- While every text can be compressed and every request to an endpoint that is not encrypted is answered
  -- by 200, `SendLogs` of a message that parses, whose enhanced items can all be marshalled, reports no
  -- error, sends the compressed chunks of these items, each once and in order, and sends and stores nothing
  -- else.
  pub send_logs-Delivered :
      (b : ℕ) (bs : Bytes) (items new : List JsonMap) (s : ClientState S)
      → S.unmarshal_array (b ∷ bs) ≡ ok items
      → (enhance_logs S cfg items s).0 ≡ done new
      → (create_chunks S.marshal cfg.max_data_payload_size new).1 ≡ none
      → ((send_logs S cfg (b ∷ bs) s).0 ≡ done none)
        × Delivered
            (map zip (create_chunks S.marshal cfg.max_data_payload_size new).0)
            s
            (send_logs S cfg (b ∷ bs) s).1
  unfolding send_logs
  send_logs-Delivered b bs items new s u e c =
      let t = (enhance_logs S cfg items s).1 in
      let q = enhance_logs-Untouched S cfg items s in
      let d =
        send_items-Delivered "SendLogs - createChunks failed" "SendLogs - errors during postToSumo"
          0 new t c in
      rw (transform_bytes-ok S (b ∷ bs) items u, send_logs)
        (subst
          (λ (o : Outcome (List JsonMap)).
            let r = send_enhanced S cfg o t in
            (r.0 ≡ done none)
            × Delivered (map zip (create_chunks S.marshal cfg.max_data_payload_size new).0) s r.1)
          (sym e)
          (
            ap (λ o. done o) d.0,
            record {
              requests =
                  d.1.requests
                  ∙ ap
                      (λ l.
                        bodies l
                        ++ map zip (create_chunks S.marshal cfg.max_data_payload_size new).0)
                      q.0;
              uploads = d.1.uploads ∙ q.1;
            },
          ))
