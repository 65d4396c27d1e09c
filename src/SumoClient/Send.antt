-- ===== src/SumoClient/Send.antt =====
-- lambda-extensions/sumoclient/sumoclient.go: `SendLogs`, `SendAllLogs` and `FlushAll`.
pub mod Malformed
pub mod Healthy
pub mod Flushing
pub mod Enhancing
pub mod Batches
use sumologic_lambda_extensi.Base.{
  ℕ, ◌+◌, Bool, true, false, not, ◌&&◌, Option, none, some, List, [], ◌∷◌, ◌++◌, String, ltb,
  if◌then◌else◌, Error, wrapped, counted, flush_failed, flush_counted, Result, ok, err, St,
}
use sumologic_lambda_extensi.Json.{JsonMap}
use sumologic_lambda_extensi.Config.Defs.{LambdaExtensionConfig}
use sumologic_lambda_extensi.SumoClient.Codecs.{compress_buffer, transform_bytes}
use sumologic_lambda_extensi.SumoClient.Services.{Bytes, Services, ClientState}
use sumologic_lambda_extensi.SumoClient.Enhance.{Outcome, done, panic, enhance_logs}
use sumologic_lambda_extensi.SumoClient.Chunks.{newline, create_chunks}
use sumologic_lambda_extensi.SumoClient.Post.{failover_handler, post_to_sumo}

abbrev pub is_nil {ℓ} : {A : Type ℓ} → List A → Bool
is_nil [] = true
is_nil (x ∷ xs) = false

abbrev pub add_failure : Option Error → ℕ → ℕ
add_failure none n = n
add_failure (some e) n = n + 1

abbrev pub count_error : String → ℕ → Option Error
count_error m n = if ltb 0 n then some (counted m n) else none

-- The variables of the loops over raw messages: the items or the bytes so far, and `errorCount`.
pub record Batch (A : Type 0) : Type 0 where
  pub payload : A
  pub error_count : ℕ

module _ (S : Services) (cfg : LambdaExtensionConfig) where
  -- The loop that posts the chunks, from the number of errors before it.
  unfoldable pub post_all : List Bytes → ℕ → St (ClientState S) ℕ
  post_all [] n s = (n, s)
  post_all (chunk ∷ chunks) n s =
      let r = post_to_sumo S cfg chunk s in post_all chunks (add_failure r.0 n) r.1

  abbrev post_chunks :
      String → String → ℕ → List Bytes × Option Error → St (ClientState S) (Option Error)
  post_chunks cut posted n (chunks, some e) s = (some (wrapped cut e), s)
  post_chunks cut posted n (chunks, none) s =
      let r = post_all chunks n s in (count_error posted r.0, r.1)

  -- The common end of `SendLogs` and `SendAllLogs`: cut the items into chunks and post these.
  unfoldable pub send_items : String → String → ℕ → List JsonMap → St (ClientState S) (Option Error)
  send_items cut posted n items s =
      post_chunks cut posted n (create_chunks S.marshal cfg.max_data_payload_size items) s

  abbrev pub send_enhanced : Outcome (List JsonMap) → St (ClientState S) (Outcome (Option Error))
  send_enhanced panic s = (panic, s)
  send_enhanced (done items) s =
      let r =
        send_items "SendLogs - createChunks failed" "SendLogs - errors during postToSumo" 0 items
          s in
      (done r.0, r.1)

  -- `SendLogs`
  unfoldable pub send_logs : Bytes → St (ClientState S) (Outcome (Option Error))
  send_logs [] s = (done none, s)
  send_logs (b ∷ bs) s = elim (transform_bytes S (b ∷ bs)) [
    | err e ↦ (done (some (wrapped "SendLogs - transformBytesToArrayOfMap failed" e)), s)
    | ok items ↦ let r = enhance_logs S cfg items s in send_enhanced r.0 r.1
  ]

  abbrev pub append_items :
      Outcome (List JsonMap) → Batch (List JsonMap) → Outcome (Batch (List JsonMap))
  append_items panic b = panic
  append_items (done items) b = done (record b { payload = b.payload ++ items })

  -- The body of the loop of `SendAllLogs`; an empty slice adds nothing.
  abbrev pub collect_message :
      Result (List JsonMap)
      → Batch (List JsonMap)
      → St (ClientState S) (Outcome (Batch (List JsonMap)))
  collect_message (err e) b s = (done (record b { error_count = b.error_count + 1 }), s)
  collect_message (ok items) b s =
      if is_nil items
      then (done b, s)
      else let r = enhance_logs S cfg items s in (append_items r.0 b, r.1)

  unfoldable pub collect :
      List Bytes → Batch (List JsonMap) → St (ClientState S) (Outcome (Batch (List JsonMap)))
  collect [] b s = (done b, s)
  collect (raw ∷ raws) b s =
      let r = collect_message (transform_bytes S raw) b s in
      elim r.0 [ panic ↦ (panic, r.1) | done b' ↦ collect raws b' r.1 ]

  abbrev pub send_batch :
      Outcome (Batch (List JsonMap)) → St (ClientState S) (Outcome (Option Error))
  send_batch panic s = (panic, s)
  send_batch (done b) s =
      let r =
        send_items "SendAllLogs: CreateChunks failed" "SendAllLogs: Errors during postToSumo"
          b.error_count b.payload s in
      (done r.0, r.1)

  -- `SendAllLogs`
  unfoldable pub send_all_logs : List Bytes → St (ClientState S) (Outcome (Option Error))
  send_all_logs raws s =
      if is_nil raws
      then (done none, s)
      else let r = collect raws (record { payload = []; error_count = 0 }) s in send_batch r.0 r.1

  -- The loop of `FlushAll` over the items of a message.
  unfoldable pub write_items : List JsonMap → Batch Bytes → Batch Bytes
  write_items [] b = b
  write_items (item ∷ items) b = write_items items (elim (S.marshal item) [
    | err e ↦ record b { error_count = b.error_count + 1 }
    | ok text ↦ record b { payload = b.payload ++ newline ∷ text }
  ])

  abbrev pub write_enhanced : Outcome (List JsonMap) → Batch Bytes → Outcome (Batch Bytes)
  write_enhanced panic b = panic
  write_enhanced (done items) b = done (write_items items b)

  abbrev pub flush_message :
      Result (List JsonMap) → Batch Bytes → St (ClientState S) (Outcome (Batch Bytes))
  flush_message (err e) b s = (done (record b { error_count = b.error_count + 1 }), s)
  flush_message (ok items) b s =
      if is_nil items
      then (done b, s)
      else let r = enhance_logs S cfg items s in (write_enhanced r.0 b, r.1)

  unfoldable pub flush_loop : List Bytes → Batch Bytes → St (ClientState S) (Outcome (Batch Bytes))
  flush_loop [] b s = (done b, s)
  flush_loop (raw ∷ raws) b s =
      let r = flush_message (transform_bytes S raw) b s in
      elim r.0 [ panic ↦ (panic, r.1) | done b' ↦ flush_loop raws b' r.1 ]

  abbrev pub flush_error : ℕ → Option Error → Option Error
  flush_error n none = if ltb 0 n then some (flush_counted n) else none
  flush_error n (some e) = some (flush_failed n e)

  -- What `FlushAll` does with the bytes of all messages.
  unfoldable pub flush_bytes : Batch Bytes → St (ClientState S) (Option Error)
  flush_bytes b s = elim (compress_buffer S b.payload) [
    | err e ↦ (some (wrapped "flushAll - failed to compress log string" e), s)
    | ok body ↦ let r = failover_handler S cfg body s in (flush_error b.error_count r.0, r.1)
  ]

  abbrev pub flush_batch : Outcome (Batch Bytes) → St (ClientState S) (Outcome (Option Error))
  flush_batch panic s = (panic, s)
  flush_batch (done b) s = let r = flush_bytes b s in (done r.0, r.1)

  -- `FlushAll`
  unfoldable pub flush_all : List Bytes → St (ClientState S) (Outcome (Option Error))
  flush_all raws s =
      if not (is_nil raws) && cfg.enable_failover
      then (let r = flush_loop raws (record { payload = []; error_count = 0 }) s in
          flush_batch r.0 r.1)
      else (done none, s)
