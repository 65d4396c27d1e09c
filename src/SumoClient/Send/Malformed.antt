-- ===== src/SumoClient/Send/Malformed.antt =====
-- Messages that do not parse, in `SendAllLogs` and in the queue that it is called for.
use sumologic_lambda_extensi.Base.{
  ℕ, ◌+◌, ◌≤◌, ◌<◌, ◌≡◌, refl, ap, ◌≢◌, Option, none, some, List, [], ◌∷◌, String, if◌then◌else◌,
  Error, Result, ok, err, is_ok, arith,
}
use sumologic_lambda_extensi.Json.{JsonMap}
use sumologic_lambda_extensi.Config.Defs.{LambdaExtensionConfig}
use sumologic_lambda_extensi.SumoClient.Codecs.{transform_bytes}
use sumologic_lambda_extensi.SumoClient.Services.{Bytes, Services, ClientState}
use sumologic_lambda_extensi.SumoClient.Chunks.{create_chunks}
use sumologic_lambda_extensi.SumoClient.Enhance.{Outcome, done, panic, enhance_logs}
use sumologic_lambda_extensi.SumoClient.Enhance.Frame.{OnDone}
use sumologic_lambda_extensi.SumoClient.Post.{post_to_sumo}
use sumologic_lambda_extensi.SumoClient.Send.{
  add_failure, count_error, Batch, post_all, post_chunks, send_items, append_items, collect_message,
  collect, send_batch, send_all_logs,
}

module _ (S : Services) (cfg : LambdaExtensionConfig) where
  abbrev pub malformed_one : Result (List JsonMap) → ℕ
  malformed_one r = if is_ok r then 0 else 1

  -- How many of the messages do not parse.
  unfoldable pub malformed : List Bytes → ℕ
  malformed [] = 0
  malformed (raw ∷ raws) = malformed_one (transform_bytes S raw) + malformed raws

  -- The errors counted so far, behind so many more.
  abbrev Counts : ℕ → Outcome (Batch (List JsonMap)) → Type 0
  Counts n r = OnDone (λ b. b.error_count ≡ n) r

  append_items-Counts :
      (r : Outcome (List JsonMap)) (b : Batch (List JsonMap))
      → Counts (b.error_count + 0) (append_items S cfg r b)
  append_items-Counts panic b = tt
  append_items-Counts (done items) b = omega arith

  collect_message-Counts :
      (r : Result (List JsonMap)) (b : Batch (List JsonMap)) (s : ClientState S)
      → Counts (b.error_count + malformed_one r) (collect_message S cfg r b s).0
  collect_message-Counts (err e) b s = refl
  collect_message-Counts (ok []) b s = omega arith
  collect_message-Counts (ok (item ∷ items)) b s =
      append_items-Counts (enhance_logs S cfg (item ∷ items) s).0 b

  collect-Counts :
      (raws : List Bytes) (b : Batch (List JsonMap)) (s : ClientState S)
      → Counts (b.error_count + malformed raws) (collect S cfg raws b s).0
  unfolding collect malformed
  collect-Counts [] b s = omega arith
  collect-Counts (raw ∷ raws) b s =
      next (collect_message S cfg (transform_bytes S raw) b s)
        (collect_message-Counts (transform_bytes S raw) b s) (collect-Counts raws)
    where
      next :
          (r : Outcome (Batch (List JsonMap)) × ClientState S)
          → Counts (b.error_count + malformed_one (transform_bytes S raw)) r.0
          → ((b' : Batch (List JsonMap)) (s' : ClientState S)
              → Counts (b'.error_count + malformed raws) (collect S cfg raws b' s').0)
          → let t : Outcome (Batch (List JsonMap)) × ClientState S = elim r.0 [
            | panic ↦ (panic, r.1)
            | done b' ↦ collect S cfg raws b' r.1
          ] in
            Counts (b.error_count + (malformed_one (transform_bytes S raw) + malformed raws)) t.0
      next (panic, s') h again = tt
      next (done b', s') h again =
          let e : b'.error_count + malformed raws
              ≡ b.error_count + (malformed_one (transform_bytes S raw) + malformed raws) =
            omega arith in
          rw e at (again b' s')

  post_all-grows :
      (chunks : List Bytes) (n : ℕ) (s : ClientState S) → n ≤ (post_all S cfg chunks n s).0
  unfolding post_all
  post_all-grows [] n s = omega arith
  post_all-grows (chunk ∷ chunks) n s =
      let r = post_to_sumo S cfg chunk s in
      omega (arith, post_all-grows chunks (add_failure r.0 n) r.1, add_failure-grows r.0)
    where
      add_failure-grows : (e : Option Error) → n ≤ add_failure e n
      add_failure-grows none = omega arith
      add_failure-grows (some e) = omega arith

  count_error-some : (m : String) (n : ℕ) → 0 < n → count_error m n ≢ none
  count_error-some m n h = ground arith

  send_items-fails :
      (cut posted : String) (n : ℕ) (items : List JsonMap) (s : ClientState S)
      → 0 < n
      → (send_items S cfg cut posted n items s).0 ≢ none
  unfolding send_items
  send_items-fails cut posted n items s h =
      chunks-fail (create_chunks S.marshal cfg.max_data_payload_size items)
    where
      chunks-fail : (r : List Bytes × Option Error) → (post_chunks S cfg cut posted n r s).0 ≢ none
      chunks-fail (chunks, some e) = λ q. cc
      chunks-fail (chunks, none) =
          count_error-some posted _ (omega (arith, post_all-grows chunks n s))

  send_batch-fails :
      (r : Outcome (Batch (List JsonMap))) (s : ClientState S)
      → OnDone (λ b. 0 < b.error_count) r
      → (send_batch S cfg r s).0 ≢ done none
  send_batch-fails panic s h = λ q. cc
  send_batch-fails (done b) s h =
      let ne =
        send_items-fails "SendAllLogs: CreateChunks failed" "SendAllLogs: Errors during postToSumo"
          b.error_count b.payload s h in
      λ q. ne (ap (λ o. out o) q)
    where
      out : Outcome (Option Error) → Option Error
      out (done e) = e
      out panic = none

  fewer :
      (n m : ℕ) (r : Outcome (Batch (List JsonMap)))
      → 0 < m
      → Counts (n + m) r
      → OnDone (λ b. 0 < b.error_count) r
  fewer n m panic h k = tt
  fewer n m (done b) h k = omega arith

  -- When some message does not parse, `SendAllLogs` never returns without an error, whatever becomes of
  -- the posts of the others.
  pub send_all_logs-malformed :
      (raws : List Bytes) (s : ClientState S)
      → 0 < malformed raws
      → (send_all_logs S cfg raws s).0 ≢ done none
  unfolding send_all_logs malformed
  send_all_logs-malformed [] s h = omega arith
  send_all_logs-malformed (raw ∷ raws) s h =
      let b : Batch (List JsonMap) = record { payload = []; error_count = 0 } in
      send_batch-fails _ _ (fewer 0 _ _ h (collect-Counts (raw ∷ raws) b s))
