-- ===== src/SumoClient/Send/Enhancing.antt =====
-- What the loops of `SendAllLogs` and `FlushAll` over raw messages gather.
use sumologic_lambda_extensi.Base.{
  ℕ, suc, ◌+◌, ◌≡◌, refl, ◌∙◌, ap, sym, List, [], ◌∷◌, ◌++◌, append-nil, append_assoc, Error,
  Result, ok, err, Result-cases, inl, inr, arith,
}
use sumologic_lambda_extensi.Json.{JsonMap}
use sumologic_lambda_extensi.Config.Defs.{LambdaExtensionConfig}
use sumologic_lambda_extensi.SumoClient.Services.{Bytes, Services, ClientState}
use sumologic_lambda_extensi.SumoClient.Codecs.{transform_bytes}
use sumologic_lambda_extensi.SumoClient.Chunks.{newline}
use sumologic_lambda_extensi.SumoClient.Chunks.Content.{marshalled, lines, lines-append}
use sumologic_lambda_extensi.SumoClient.Enhance.{Outcome, done, panic, enhance_logs}
use sumologic_lambda_extensi.SumoClient.Send.{
  Batch, collect_message, collect, write_items, flush_message, flush_loop,
}

-- The items that cannot be marshalled.
unfoldable pub refused : (JsonMap → Result Bytes) → List JsonMap → ℕ
refused marshal [] = 0
refused marshal (item ∷ items) =
    let rest = refused marshal items in elim (marshal item) [ ok b ↦ rest | err e ↦ suc rest ]

module _ (S : Services) (cfg : LambdaExtensionConfig) where
  -- `Enhances raws s items n t`: of the messages `raws`, `n` do not parse, and those that do hold
  -- `items`, enhanced message by message from `s` on, which leads to `t`.
  pub data Enhances : List Bytes → ClientState S → List JsonMap → ℕ → ClientState S → Type 0 where
    no_more : (s : ClientState S) → Enhances [] s [] 0 s
    malformed :
        (raw : Bytes) (raws : List Bytes) (e : Error) (s t : ClientState S) (items : List JsonMap)
        (n : ℕ)
        → transform_bytes S raw ≡ err e
        → Enhances raws s items n t
        → Enhances (raw ∷ raws) s items (suc n) t
    parsed :
        (raw : Bytes) (raws : List Bytes) (old new items : List JsonMap) (s u t : ClientState S)
        (n : ℕ)
        → transform_bytes S raw ≡ ok old
        → enhance_logs S cfg old s ≡ (done new, u)
        → Enhances raws u items n t
        → Enhances (raw ∷ raws) s (new ++ items) n t

  nothing_new :
      (new : List JsonMap) (s u : ClientState S)
      → enhance_logs S cfg [] s ≡ (done new, u)
      → (new ≡ []) × (s ≡ u)
  unfolding enhance_logs
  nothing_new new s u h = (cc, cc)

  collect_message-parsed :
      (old new : List JsonMap) (b : Batch (List JsonMap)) (s u : ClientState S)
      → enhance_logs S cfg old s ≡ (done new, u)
      → collect_message S cfg (ok old) b s ≡ (done (record b { payload = b.payload ++ new }), u)
  collect_message-parsed [] new b s u h =
      let e = nothing_new new s u h in
      ap (λ t. (done b, t)) e.1
      ∙ ap (λ l. (done (record b { payload = l }), u))
          (sym (append-nil b.payload) ∙ ap (λ l. b.payload ++ l) (sym e.0))
  collect_message-parsed (x ∷ old) new b s u h = rw h refl

  abbrev batch : {A : Type 0} → A → ℕ → Batch A
  batch x n = record { payload = x; error_count = n }

  batch_eq : {A : Type 0} {x y : A} {m n : ℕ} → x ≡ y → m ≡ n → batch x m ≡ batch y n
  batch_eq p q = cc

  abbrev ended : {A : Type 0} → Batch A → ClientState S → Outcome (Batch A) × ClientState S
  ended b t = (done b, t)

  abbrev pub gathered : Batch (List JsonMap) → List JsonMap → ℕ → Batch (List JsonMap)
  gathered b items n = record { payload = b.payload ++ items; error_count = b.error_count + n }

  -- What follows the message of a round.
  abbrev collect_from :
      List Bytes
      → Outcome (Batch (List JsonMap)) × ClientState S
      → Outcome (Batch (List JsonMap)) × ClientState S
  collect_from raws r = elim r.0 [ panic ↦ (panic, r.1) | done b ↦ collect S cfg raws b r.1 ]

  abbrev flush_from :
      List Bytes → Outcome (Batch Bytes) × ClientState S → Outcome (Batch Bytes) × ClientState S
  flush_from raws r = elim r.0 [ panic ↦ (panic, r.1) | done b ↦ flush_loop S cfg raws b r.1 ]

  pub collect-gathered :
      {raws : List Bytes} {s t : ClientState S} {items : List JsonMap} {n : ℕ}
      (b : Batch (List JsonMap))
      → Enhances raws s items n t
      → collect S cfg raws b s ≡ (done (gathered b items n), t)
  unfolding collect
  collect-gathered b (no_more s) =
      ap (λ c. ended c s) (batch_eq (sym (append-nil b.payload)) (omega arith))
  collect-gathered b (malformed raw raws e s t items n h r) =
      ap (λ x. collect_from raws (collect_message S cfg x b s)) h
      ∙ (collect-gathered (record b { error_count = b.error_count + 1 }) r
          ∙ ap (λ c. ended c t) (batch_eq refl (omega arith)))
  collect-gathered b (parsed raw raws old new items s u t n h q r) =
      ap (λ x. collect_from raws (collect_message S cfg x b s)) h
      ∙ (ap (collect_from raws) (collect_message-parsed old new b s u q)
          ∙ (collect-gathered (record b { payload = b.payload ++ new }) r
              ∙ ap (λ c. ended c t) (batch_eq (append_assoc b.payload new items) refl)))

  -- The lines of items, behind the bytes so far.
  abbrev pub written : Batch Bytes → List JsonMap → ℕ → Batch Bytes
  written b items n = record {
    payload = b.payload ++ lines (marshalled S.marshal items);
    error_count = b.error_count + (n + refused S.marshal items);
  }

  refused_nil : (n : ℕ) → n ≡ n + (0 + refused S.marshal [])
  unfolding refused
  refused_nil n = omega arith

  refused_ok :
      (item : JsonMap) (items : List JsonMap) (text : Bytes)
      → S.marshal item ≡ ok text
      → refused S.marshal (item ∷ items) ≡ refused S.marshal items
  unfolding refused
  refused_ok item items text e = ground arith

  refused_err :
      (item : JsonMap) (items : List JsonMap) (x : Error)
      → S.marshal item ≡ err x
      → refused S.marshal (item ∷ items) ≡ suc (refused S.marshal items)
  unfolding refused
  refused_err item items x e = ground arith

  write_items-written :
      (items : List JsonMap) (b : Batch Bytes) → write_items S cfg items b ≡ written b items 0
  unfolding write_items marshalled lines
  write_items-written [] b = batch_eq (sym (append-nil b.payload)) (refused_nil b.error_count)
  write_items-written (item ∷ items) b = elim (Result-cases (S.marshal item)) [
    | inl (text, e) ↦ rw e (
        write_items-written items (record b { payload = b.payload ++ newline ∷ text })
        ∙ batch_eq (append_assoc b.payload (newline ∷ text) (lines (marshalled S.marshal items)))
            (omega (arith, refused_ok item items text e)))
    | inr (x, e) ↦ rw e (
        write_items-written items (record b { error_count = b.error_count + 1 })
        ∙ batch_eq refl (omega (arith, refused_err item items x e)))
  ]

  refused-append :
      (xs ys : List JsonMap)
      → refused S.marshal (xs ++ ys) ≡ refused S.marshal xs + refused S.marshal ys
  unfolding refused
  refused-append [] ys = omega arith
  refused-append (x ∷ xs) ys = ground (arith, refused-append xs ys)

  marshalled-append :
      (xs ys : List JsonMap)
      → marshalled S.marshal (xs ++ ys) ≡ marshalled S.marshal xs ++ marshalled S.marshal ys
  unfolding marshalled
  marshalled-append [] ys = refl
  marshalled-append (x ∷ xs) ys = simp (marshalled-append xs ys, append_assoc)

  lines_append :
      (xs ys : List JsonMap)
      → lines (marshalled S.marshal (xs ++ ys))
        ≡ lines (marshalled S.marshal xs) ++ lines (marshalled S.marshal ys)
  lines_append xs ys =
      ap lines (marshalled-append xs ys)
      ∙ lines-append (marshalled S.marshal xs) (marshalled S.marshal ys)

  flush_message-parsed :
      (old new : List JsonMap) (b : Batch Bytes) (s u : ClientState S)
      → enhance_logs S cfg old s ≡ (done new, u)
      → flush_message S cfg (ok old) b s ≡ ended (written b new 0) u
  unfolding marshalled lines refused
  flush_message-parsed [] new b s u h =
      let e = nothing_new new s u h in
      ap (ended b) e.1
      ∙ ap (λ c. ended c u)
          (batch_eq (sym (append-nil b.payload)) (omega arith) ∙ ap (λ l. written b l 0) (sym e.0))
  flush_message-parsed (x ∷ old) new b s u h =
      rw h (ap (λ c. ended c u) (write_items-written new b))

  pub flush_loop-written :
      {raws : List Bytes} {s t : ClientState S} {items : List JsonMap} {n : ℕ} (b : Batch Bytes)
      → Enhances raws s items n t
      → flush_loop S cfg raws b s ≡ ended (written b items n) t
  unfolding flush_loop marshalled lines refused
  flush_loop-written b (no_more s) =
      ap (λ c. ended c s) (batch_eq (sym (append-nil b.payload)) (omega arith))
  flush_loop-written b (malformed raw raws e s t items n h r) =
      ap (λ x. flush_from raws (flush_message S cfg x b s)) h
      ∙ (flush_loop-written (record b { error_count = b.error_count + 1 }) r
          ∙ ap (λ c. ended c t) (batch_eq refl (omega arith)))
  flush_loop-written b (parsed raw raws old new items s u t n h q r) =
      ap (λ x. flush_from raws (flush_message S cfg x b s)) h
      ∙ (ap (flush_from raws) (flush_message-parsed old new b s u q)
          ∙ (flush_loop-written (written b new 0) r
              ∙ ap (λ c. ended c t)
                  (batch_eq
                    (append_assoc b.payload (lines (marshalled S.marshal new))
                        (lines (marshalled S.marshal items))
                      ∙ ap (λ l. b.payload ++ l) (sym (lines_append new items)))
                    (omega (arith, refused-append new items)))))
