-- ===== src/SumoClient/Send/Flushing.antt =====
-- What it means that `FlushAll` reports no error.
use sumologic_lambda_extensi.Base.{
  ℕ, ◌+◌, ◌≤◌, ◌≡◌, refl, ◌∙◌, ap, sym, subst, ◌≢◌, true, Option, none, some, List, [], ◌∷◌, ◌++◌,
  Error, Result, ok, err, Result-cases, inl, inr, arith,
}
use sumologic_lambda_extensi.Json.{JsonMap}
use sumologic_lambda_extensi.Config.Defs.{LambdaExtensionConfig}
use sumologic_lambda_extensi.SumoClient.Codecs.{compress_buffer, transform_bytes}
use sumologic_lambda_extensi.SumoClient.Services.{Bytes, Services, ClientState}
use sumologic_lambda_extensi.SumoClient.Chunks.{newline}
use sumologic_lambda_extensi.SumoClient.Enhance.{Outcome, done, panic, enhance_logs}
use sumologic_lambda_extensi.SumoClient.Enhance.Frame.{OnDone}
use sumologic_lambda_extensi.SumoClient.Enhance.Panics.{enhance_logs-Untouched}
use sumologic_lambda_extensi.SumoClient.Post.{failover_handler}
use sumologic_lambda_extensi.SumoClient.Post.Delivery.{Stores, put, failover_handler-Stores}
use sumologic_lambda_extensi.SumoClient.Send.{
  Batch, write_items, write_enhanced, flush_message, flush_loop, flush_error, flush_bytes,
  flush_batch, flush_all,
}
use sumologic_lambda_extensi.SumoClient.Send.Malformed.{malformed_one, malformed}

module _ (S : Services) (cfg : LambdaExtensionConfig) where
  write_items-grows :
      (items : List JsonMap) (b : Batch Bytes)
      → b.error_count ≤ (write_items S cfg items b).error_count
  unfolding write_items
  write_items-grows [] b = omega arith
  write_items-grows (item ∷ items) b = elim (Result-cases (S.marshal item)) [
    | inl (text, e) ↦
        rw (e, write_items)
          (write_items-grows items (record b { payload = b.payload ++ newline ∷ text }))
    | inr (e', e) ↦
        rw (e, write_items)
          (omega (arith, write_items-grows items (record b { error_count = b.error_count + 1 })))
  ]

  -- So many errors at least, and nothing stored.
  abbrev Flushes : ℕ → ClientState S → Outcome (Batch Bytes) × ClientState S → Type 0
  Flushes n s r = OnDone (λ b. n ≤ b.error_count) r.0 × (r.1.uploads ≡ s.uploads)

  write_enhanced-grows :
      (r : Outcome (List JsonMap)) (b : Batch Bytes)
      → OnDone (λ c. b.error_count + 0 ≤ c.error_count) (write_enhanced S cfg r b)
  write_enhanced-grows panic b = tt
  write_enhanced-grows (done items) b = omega (arith, write_items-grows items b)

  flush_message-Flushes :
      (r : Result (List JsonMap)) (b : Batch Bytes) (s : ClientState S)
      → Flushes (b.error_count + malformed_one S cfg r) s (flush_message S cfg r b s)
  flush_message-Flushes (err e) b s = (omega arith, refl)
  flush_message-Flushes (ok []) b s = (omega arith, refl)
  flush_message-Flushes (ok (item ∷ items)) b s = (
    write_enhanced-grows (enhance_logs S cfg (item ∷ items) s).0 b,
    (enhance_logs-Untouched S cfg (item ∷ items) s).1,
  )

  flush_loop-Flushes :
      (raws : List Bytes) (b : Batch Bytes) (s : ClientState S)
      → Flushes (b.error_count + malformed S cfg raws) s (flush_loop S cfg raws b s)
  unfolding flush_loop malformed
  flush_loop-Flushes [] b s = (omega arith, refl)
  flush_loop-Flushes (raw ∷ raws) b s =
      next (flush_message S cfg (transform_bytes S raw) b s)
        (flush_message-Flushes (transform_bytes S raw) b s) (flush_loop-Flushes raws)
    where
      fewer :
          (r : Outcome (Batch Bytes) × ClientState S) (n m : ℕ) (t : ClientState S)
          → m ≤ n
          → t.uploads ≡ s.uploads
          → Flushes n t r
          → Flushes m s r
      fewer (panic, u) n m t h q k = (tt, k.1 ∙ q)
      fewer (done c, u) n m t h q k = (omega (arith, h, k.0), k.1 ∙ q)

      next :
          (r : Outcome (Batch Bytes) × ClientState S)
          → Flushes (b.error_count + malformed_one S cfg (transform_bytes S raw)) s r
          → ((b' : Batch Bytes) (s' : ClientState S)
              → Flushes (b'.error_count + malformed S cfg raws) s' (flush_loop S cfg raws b' s'))
          → Flushes
              (b.error_count + (malformed_one S cfg (transform_bytes S raw) + malformed S cfg raws))
              s
              (elim r.0 [ panic ↦ (panic, r.1) | done b' ↦ flush_loop S cfg raws b' r.1 ])
      next (panic, s') h again = (tt, h.1)
      next (done b', s') h again =
          fewer (flush_loop S cfg raws b' s') _ _ s' (omega (arith, h.0)) h.1 (again b' s')

  -- The compressed bytes of some text were stored.
  pub record Flushed (raws : List Bytes) (s t : ClientState S) : Type 0 where
    pub parsed : malformed S cfg raws ≡ 0
    pub text : Bytes
    pub body : Bytes
    pub compressed : compress_buffer S text ≡ ok body
    pub stored : Stores S cfg body s t

  flush_error-none :
      (n : ℕ) (e : Option Error) → flush_error S cfg n e ≡ none → (n ≡ 0) × (e ≡ none)
  flush_error-none n none h = (ground arith, refl)
  flush_error-none n (some e) h = cc

  flush_bytes-Flushed :
      (raws : List Bytes) (b : Batch Bytes) (s t : ClientState S)
      → cfg.enable_failover ≡ true
      → Flushes (malformed S cfg raws) s (done b, t)
      → (flush_bytes S cfg b t).0 ≡ none
      → Flushed raws s (flush_bytes S cfg b t).1
  unfolding flush_bytes
  flush_bytes-Flushed raws b s t on k h = elim (Result-cases (compress_buffer S b.payload)) [
    | inr (e', e) ↦ absurd (some-ne-none _ (rw (e, flush_bytes) at h))
    | inl (body, e) ↦
        rw (e, flush_bytes)
          (let n =
              flush_error-none b.error_count (failover_handler S cfg body t).0
                (rw (e, flush_bytes) at h) in
            let st = failover_handler-Stores S cfg body t on n.1 in
            record {
              parsed = omega (arith, k.0, n.0);
              text = b.payload;
              body = body;
              compressed = e;
              stored = record {
                key = st.key;
                uploads = st.uploads ∙ ap (λ l. l ++ put S cfg body st.key ∷ []) k.1;
              };
            })
  ]
    where
      some-ne-none : (e : Error) → some e ≢ none
      some-ne-none e q = cc

  flush_batch-Flushed :
      (raws : List Bytes) (s : ClientState S) (r : Outcome (Batch Bytes) × ClientState S)
      → cfg.enable_failover ≡ true
      → Flushes (malformed S cfg raws) s r
      → (flush_batch S cfg r.0 r.1).0 ≡ done none
      → Flushed raws s (flush_batch S cfg r.0 r.1).1
  flush_batch-Flushed raws s (panic, t) on k h = cc
  flush_batch-Flushed raws s (done b, t) on k h = flush_bytes-Flushed raws b s t on k (ap out h)
    where
      out : Outcome (Option Error) → Option Error
      out (done e) = e
      out panic = none

  abbrev pub nothing : Batch Bytes
  nothing = record { payload = []; error_count = 0 }

  pub flush_all_on :
      (raw : Bytes) (raws : List Bytes) (s : ClientState S)
      → cfg.enable_failover ≡ true
      → flush_all S cfg (raw ∷ raws) s
        ≡ flush_batch S cfg
            (flush_loop S cfg (raw ∷ raws) nothing s).0
            (flush_loop S cfg (raw ∷ raws) nothing s).1
  unfolding flush_all
  flush_all_on raw raws s on = ground arith

  -- With the failover enabled, if `FlushAll` of at least one message reports no error, then every message
  -- parsed, and one object was stored, with the compressed bytes of some text, by an upload that
  -- succeeded.
  pub flush_all-Flushed :
      (raws : List Bytes) (s : ClientState S)
      → cfg.enable_failover ≡ true
      → raws ≢ []
      → (flush_all S cfg raws s).0 ≡ done none
      → Flushed raws s (flush_all S cfg raws s).1
  flush_all-Flushed [] s on ne h = absurd (ne refl)
  flush_all-Flushed (raw ∷ raws) s on ne h =
      let r = flush_loop S cfg (raw ∷ raws) nothing s in
      let z : 0 + malformed S cfg (raw ∷ raws) ≡ malformed S cfg (raw ∷ raws) = omega arith in
      let k = subst (λ n. Flushes n s r) z (flush_loop-Flushes (raw ∷ raws) nothing s) in
      let q = flush_all_on raw raws s on in
      subst (λ (t : Outcome (Option Error) × ClientState S). Flushed (raw ∷ raws) s t.1) (sym q)
        (flush_batch-Flushed (raw ∷ raws) s r on k (ap (λ t. t.0) (sym q) ∙ h))
