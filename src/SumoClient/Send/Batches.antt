-- ===== src/SumoClient/Send/Batches.antt =====
-- `SendAllLogs` and `FlushAll` of messages whose items are enhanced with no panic.
use sumologic_lambda_extensi.Base.{
  ℕ, ◌+◌, ◌≡◌, refl, ◌∙◌, ap, sym, true, Option, none, List, [], ◌∷◌, ◌++◌, map, Error, ok, arith,
}
use sumologic_lambda_extensi.Json.{JsonMap}
use sumologic_lambda_extensi.Config.Defs.{LambdaExtensionConfig}
use sumologic_lambda_extensi.SumoClient.Services.{Bytes, Services, ClientState}
use sumologic_lambda_extensi.SumoClient.Codecs.{compress_buffer}
use sumologic_lambda_extensi.SumoClient.Chunks.{create_chunks}
use sumologic_lambda_extensi.SumoClient.Chunks.Content.{marshalled, lines}
use sumologic_lambda_extensi.SumoClient.Enhance.{Outcome, done}
use sumologic_lambda_extensi.SumoClient.Enhance.Panics.{enhance_logs-Untouched}
use sumologic_lambda_extensi.SumoClient.Post.{failover_handler}
use sumologic_lambda_extensi.SumoClient.Send.{
  count_error, Batch, send_batch, send_all_logs, flush_bytes, flush_error, flush_batch, flush_all,
}
use sumologic_lambda_extensi.SumoClient.Send.Enhancing.{
  refused, Enhances, no_more, malformed, parsed, collect-gathered, flush_loop-written,
}
use sumologic_lambda_extensi.SumoClient.Send.Flushing.{nothing, flush_all_on}
use sumologic_lambda_extensi.SumoClient.Send.Healthy.{
  IsHealthy, bodies, Delivered, send_items-Delivered,
}

module _ (S : Services) (cfg : LambdaExtensionConfig) where
  Enhances-uploads :
      {raws : List Bytes} {s t : ClientState S} {items : List JsonMap} {n : ℕ}
      → Enhances S cfg raws s items n t
      → t.uploads ≡ s.uploads
  Enhances-uploads (no_more s) = refl
  Enhances-uploads (malformed raw raws e s t items n h r) = Enhances-uploads r
  Enhances-uploads (parsed raw raws old new items s u t n h q r) =
      Enhances-uploads r
      ∙ ap (λ (x : Outcome (List JsonMap) × ClientState S). x.1.uploads) (sym q)
      ∙ (enhance_logs-Untouched S cfg old s).1

  Enhances-requests :
      {raws : List Bytes} {s t : ClientState S} {items : List JsonMap} {n : ℕ}
      → Enhances S cfg raws s items n t
      → t.requests ≡ s.requests
  Enhances-requests (no_more s) = refl
  Enhances-requests (malformed raw raws e s t items n h r) = Enhances-requests r
  Enhances-requests (parsed raw raws old new items s u t n h q r) =
      Enhances-requests r
      ∙ ap (λ (x : Outcome (List JsonMap) × ClientState S). x.1.requests) (sym q)
      ∙ (enhance_logs-Untouched S cfg old s).0

  -- The first batch of both loops.
  send_all_logs-batch :
      (raw : Bytes) (raws : List Bytes) (s t : ClientState S) (new : List JsonMap) (n : ℕ)
      → Enhances S cfg (raw ∷ raws) s new n t
      → send_all_logs S cfg (raw ∷ raws) s
        ≡ send_batch S cfg (done (record { payload = new; error_count = n })) t
  unfolding send_all_logs
  send_all_logs-batch raw raws s t new n h =
      ap (λ (r : Outcome (Batch (List JsonMap)) × ClientState S). send_batch S cfg r.0 r.1)
        (collect-gathered S cfg (record { payload = []; error_count = 0 }) h)
      ∙ ap (λ k. send_batch S cfg (done (record { payload = new; error_count = k })) t)
          (omega arith)

  flush_bytes-ok :
      (b : Batch Bytes) (t : ClientState S) (body : Bytes)
      → compress_buffer S b.payload ≡ ok body
      → flush_bytes S cfg b t ≡ (
        flush_error S cfg b.error_count (failover_handler S cfg body t).0,
        (failover_handler S cfg body t).1,
      )
  unfolding flush_bytes
  flush_bytes-ok b t body c = rw (c, flush_bytes) refl

  -- With the failover enabled, for at least one message, whose items are enhanced with no panic, and if
  -- the lines of the items that can be marshalled can be compressed, `FlushAll` calls `failoverHandler`
  -- once, with these lines, each once and in order, compressed. It reports an error exactly if that call
  -- does, a message did not parse or an item could not be marshalled, with the number of these.
  pub flush_all-lines :
      (raw : Bytes) (raws : List Bytes) (s t : ClientState S) (new : List JsonMap) (n : ℕ)
      (body : Bytes)
      → cfg.enable_failover ≡ true
      → Enhances S cfg (raw ∷ raws) s new n t
      → compress_buffer S (lines (marshalled S.marshal new)) ≡ ok body
      → flush_all S cfg (raw ∷ raws) s ≡ (
        done (flush_error S cfg (n + refused S.marshal new) (failover_handler S cfg body t).0),
        (failover_handler S cfg body t).1,
      )
  flush_all-lines raw raws s t new n body on h c =
      flush_all_on S cfg raw raws s on
      ∙ ap (λ (r : Outcome (Batch Bytes) × ClientState S). flush_batch S cfg r.0 r.1)
          (flush_loop-written S cfg (nothing S cfg) h)
      ∙ ap
          (λ k.
            flush_batch S cfg
              (done (record { payload = lines (marshalled S.marshal new); error_count = k })) t)
          (omega arith)
      ∙ ap (λ (r : Option Error × ClientState S). (done r.0, r.1))
          (flush_bytes-ok
            (record {
              payload = lines (marshalled S.marshal new);
              error_count = n + refused S.marshal new;
            })
            t body c)

module _ (S : Services) (cfg : LambdaExtensionConfig) (zip : Bytes → Bytes)
    (h : IsHealthy S cfg zip) where
  -- While every text can be compressed and every request to an endpoint that is not encrypted is
  -- answered by 200, `SendAllLogs` of at least one message, whose items are enhanced with no panic and
  -- can all be marshalled, sends the compressed chunks of all these items, each once and in order, and
  -- sends and stores nothing else. It reports an error exactly if a message did not parse, with the
  -- number of these.
  pub send_all_logs-Delivered :
      (raw : Bytes) (raws : List Bytes) (new : List JsonMap) (s t : ClientState S) (n : ℕ)
      → Enhances S cfg (raw ∷ raws) s new n t
      → (create_chunks S.marshal cfg.max_data_payload_size new).1 ≡ none
      → ((send_all_logs S cfg (raw ∷ raws) s).0
          ≡ done (count_error "SendAllLogs: Errors during postToSumo" n))
        × Delivered S cfg zip h
            (map zip (create_chunks S.marshal cfg.max_data_payload_size new).0)
            s
            (send_all_logs S cfg (raw ∷ raws) s).1
  send_all_logs-Delivered raw raws new s t n e c =
      let d =
        send_items-Delivered S cfg zip h "SendAllLogs: CreateChunks failed"
          "SendAllLogs: Errors during postToSumo" n new t c in
      rw (send_all_logs-batch S cfg raw raws s t new n e) (
        ap (λ o. done o) d.0,
        record {
          requests =
              d.1.requests
              ∙ ap
                  (λ l.
                    bodies l ++ map zip (create_chunks S.marshal cfg.max_data_payload_size new).0)
                  (Enhances-requests S cfg e);
          uploads = d.1.uploads ∙ Enhances-uploads S cfg e;
        },
      )
