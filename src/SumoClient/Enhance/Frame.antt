-- ===== src/SumoClient/Enhance/Frame.antt =====
-- What `enhanceLogs` writes to an item and what it leaves alone.
use sumologic_lambda_extensi.Base.{
  ◌≡◌, refl, ◌∙◌, true, false, ◌&&◌, Option, none, some, [], ◌∷◌, All, String, key_eq, Bool-cases,
  inl, inr, if◌then◌else◌, Result, ok, err, arith,
}
use sumologic_lambda_extensi.Base.Text.{Text, trim_space}
use sumologic_lambda_extensi.Json.{
  Value, bool, str, obj, JsonMap, entries, Fields, lookup, set, get, has_key, delete_key,
  lookup-set, lookup-delete,
}
use sumologic_lambda_extensi.Config.Defs.{LambdaExtensionConfig}
use sumologic_lambda_extensi.SumoClient.Codecs.{parse_json}
use sumologic_lambda_extensi.SumoClient.Services.{Services, ClientState}
use sumologic_lambda_extensi.SumoClient.Endpoint.{
  get_cold_start, log_group, log_stream, layer_version_suffix,
}
use sumologic_lambda_extensi.SumoClient.Enhance.{
  Outcome, done, panic, LogType, function, report, runtime_done, other, log_type, take_record,
  as_map, with_message, function_item, with_metrics, record_map, create_cw_log_line, without_spans,
  by_type, tag_item, enhance_item,
}

-- The flag is never true: it is cleared before it is read.
pub get_cold_start-false : (S : Services) (s : ClientState S) → (get_cold_start S s).0 ≡ false
unfolding get_cold_start
get_cold_start-false S s = ground arith

-- A predicate on the value of a call that returns.
abbrev pub OnDone {ℓ} : {A : Type 0} → (A → Type ℓ) → Outcome A → Type ℓ
OnDone P (done a) = P a
OnDone P panic = Unit

OnDone-map :
    {A : Type 0} {P Q : A → Type 0} (o : Outcome A)
    → ((a : A) → P a → Q a)
    → OnDone P o
    → OnDone Q o
OnDone-map (done a) f h = f a h
OnDone-map panic f h = tt

module _ (S : Services) (cfg : LambdaExtensionConfig) where
  -- The fields of a tagged item.
  pub lookup-tag_item :
      (k : String) (fs : Fields) (s : ClientState S)
      → lookup k (tag_item S cfg fs s).0 ≡ (
          if key_eq "LayerVersion" k
          then some (str (layer_version_suffix S))
          else if key_eq "IsColdStart" k
          then some (bool false)
          else if key_eq "logStream" k
          then some (str (log_stream S cfg s).0)
          else if key_eq "logGroup" k
          then some (str (log_group S cfg))
          else lookup k fs)
  unfolding tag_item
  lookup-tag_item k fs s = simp (lookup-set, get_cold_start-false)

  -- Beside "message" and "record" the two lists have the same fields.
  abbrev Same : Fields → Fields → Type 0
  Same fs gs =
      (k : String)
      → key_eq "message" k ≡ false
      → key_eq "record" k ≡ false
      → lookup k gs ≡ lookup k fs

  -- The item is replaced by a map with these fields, but for "message" and "record".
  record Refines (fs : Fields) (r : JsonMap) : Type 0 where
    fields : Fields
    is_map : r ≡ entries fields
    same : Same fs fields

  set-Refines :
      (v : Value) (fs gs : Fields) → Same fs gs → Refines fs (entries (set "message" v gs))
  set-Refines v fs gs h = record {
    fields = set "message" v gs;
    is_map = refl;
    same = λ k m r. lookup-set k "message" v gs ∙ rw m (h k m r);
  }

  take_record-Same : (v : Option Value) (fs : Fields) → Same fs (take_record v fs).1
  take_record-Same (some (str m)) fs k a b = lookup-delete k "record" fs ∙ rw b
  take_record-Same _ fs k a b = refl

  with_message-Refines :
      (m : Text) (fs gs : Fields) (r : Result JsonMap)
      → cfg.enhance_json_logs ≡ true
      → Same fs gs
      → Refines fs (with_message S cfg m gs r)
  with_message-Refines m fs gs (ok js) on h =
      let e : with_message S cfg m gs (ok js) ≡ entries (set "message" (obj js) gs) =
        ground arith in
      rw e (set-Refines (obj js) fs gs h)
  with_message-Refines m fs gs (err e) on h =
      let e' : with_message S cfg m gs (err e) ≡ entries (set "message" (str m) gs) =
        ground arith in
      rw e' (set-Refines (str m) fs gs h)

  same-Refines : (fs : Fields) → Refines fs (entries fs)
  same-Refines fs = record { fields = fs; is_map = refl; same = λ k m r. refl }

  with_metrics-Refines :
      (fs : Fields) (message : JsonMap) (metric : Option JsonMap)
      → OnDone (Refines fs) (with_metrics S cfg fs message metric)
  with_metrics-Refines fs message none = tt
  with_metrics-Refines fs message (some metric) = set-Refines _ fs fs (λ k m r. refl)

  without_spans-Refines :
      (fs : Fields) (message : Option JsonMap) → Refines fs (without_spans S cfg fs message)
  without_spans-Refines fs none = same-Refines fs
  without_spans-Refines fs (some message) =
      elim (Bool-cases (has_key "spans" message && cfg.enable_span_drops)) [
        | inl drop ↦ rw drop (record {
          fields = set "record" (obj (delete_key "spans" message)) fs;
          is_map = refl;
          same = λ k m r. lookup-set k "record" _ fs ∙ rw r;
        })
        | inr keep ↦ rw keep (same-Refines fs)
      ]

  by_type-Refines :
      (t : LogType) (fs : Fields)
      → cfg.enhance_json_logs ≡ true
      → OnDone (Refines fs) (by_type S cfg t fs)
  unfolding function_item create_cw_log_line
  by_type-Refines function fs on =
      let r = take_record (lookup "record" fs) fs in
      with_message-Refines (trim_space r.0) fs r.1 (parse_json S (trim_space r.0)) on
        (take_record-Same (lookup "record" fs) fs)
  by_type-Refines report fs on =
      with_metrics-Refines fs (record_map S cfg fs) (as_map (get "metrics" (record_map S cfg fs)))
  by_type-Refines runtime_done fs on = without_spans-Refines fs (as_map (get "record" (entries fs)))
  by_type-Refines other fs on = same-Refines fs

  -- An enhanced item: a map with the four tags, the cold start flag never set, and every other field
  -- but "message" and "record" as it was.
  pub record IsEnhanced (fs : Fields) (s : ClientState S) (r : JsonMap) : Type 0 where
    pub fields : Fields
    pub is_map : r ≡ entries fields
    pub cold_start : lookup "IsColdStart" fields ≡ some (bool false)
    pub group : lookup "logGroup" fields ≡ some (str (log_group S cfg))
    pub stream : lookup "logStream" fields ≡ some (str (log_stream S cfg s).0)
    pub version : lookup "LayerVersion" fields ≡ some (str (layer_version_suffix S))
    pub others :
        (k : String)
        → All
            (λ j. key_eq j k ≡ false)
            ("message" ∷ "record" ∷ "LayerVersion" ∷ "IsColdStart" ∷ "logStream" ∷ "logGroup" ∷ [])
        → lookup k fields ≡ lookup k fs

  Refines-IsEnhanced :
      (fs : Fields) (s : ClientState S) (r : JsonMap)
      → Refines (tag_item S cfg fs s).0 r
      → IsEnhanced fs s r
  Refines-IsEnhanced fs s r v = record {
    fields = v.fields;
    is_map = v.is_map;
    cold_start = v.same "IsColdStart" refl refl ∙ lookup-tag_item "IsColdStart" fs s;
    group = v.same "logGroup" refl refl ∙ lookup-tag_item "logGroup" fs s;
    stream = v.same "logStream" refl refl ∙ lookup-tag_item "logStream" fs s;
    version = v.same "LayerVersion" refl refl ∙ lookup-tag_item "LayerVersion" fs s;
    others = λ k h.
        v.same k h.0 h.1.0
        ∙ lookup-tag_item k fs s
        ∙ simp (h.1.1.0, h.1.1.1.0, h.1.1.1.1.0, h.1.1.1.1.1.0);
  }

  -- With `EnhanceJsonLogs`, an item that does not panic is enhanced, whatever its type and its content.
  pub enhance_item-IsEnhanced :
      (fs : Fields) (s : ClientState S)
      → cfg.enhance_json_logs ≡ true
      → OnDone (IsEnhanced fs s) (enhance_item S cfg (entries fs) s).0
  unfolding enhance_item
  enhance_item-IsEnhanced fs s on = OnDone-map _ (Refines-IsEnhanced fs s) (
      by_type-Refines (log_type (lookup "type" (tag_item S cfg fs s).0)) (tag_item S cfg fs s).0 on)
