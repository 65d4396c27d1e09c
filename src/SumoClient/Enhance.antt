-- ===== src/SumoClient/Enhance.antt =====
-- lambda-extensions/sumoclient/sumoclient.go: `enhanceLogs` and `createCWLogLine`, which write to the
-- items in place, and may panic.
pub mod Frame
pub mod Panics
use sumologic_lambda_extensi.Base.{
  ℕ, Bool, true, false, ◌&&◌, Option, none, some, List, [], ◌∷◌, ◌++◌, String, if◌then◌else◌,
  Result, ok, err, St,
}
use sumologic_lambda_extensi.Base.Text.{Text, codes, text_eq, trim_space}
use sumologic_lambda_extensi.Json.{
  Value, null, bool, str, obj, JsonMap, nil_map, entries, Fields, end, field, lookup, set, delete,
  get, has_key, delete_key,
}
use sumologic_lambda_extensi.Config.Defs.{LambdaExtensionConfig}
use sumologic_lambda_extensi.SumoClient.Codecs.{parse_json}
use sumologic_lambda_extensi.SumoClient.Services.{Services, ClientState}
use sumologic_lambda_extensi.SumoClient.Endpoint.{
  get_cold_start, log_group, log_stream, layer_version_suffix,
}

-- A call that returns, or a panic that unwinds the goroutine.
pub data Outcome {ℓ} (A : Type ℓ) : Type ℓ where
  done : A → Outcome A
  panic : Outcome A

-- The kinds of items that the code tells apart by the field "type".
pub data LogType : Type 0 where
  function report runtime_done other : LogType

unfoldable pub log_type : Option Value → LogType
log_type (some (str t)) =
    if text_eq t (codes "function")
    then function
    else if text_eq t (codes "platform.report")
    then report
    else if text_eq t (codes "platform.runtimeDone")
    then runtime_done
    else other
log_type _ = other

-- `message, ok := item["record"].(string)`, with the deletion under `if ok`.
abbrev pub take_record : Option Value → Fields → Text × Fields
take_record (some (str m)) fs = (m, delete "record" fs)
take_record _ fs = ([], fs)

-- `v.(map[string]interface{})`: the map, or nil and not ok.
abbrev pub as_map : Value → Option JsonMap
as_map (obj m) = some m
as_map _ = none

abbrev pub map_or_nil : Option JsonMap → JsonMap
map_or_nil none = nil_map
map_or_nil (some m) = m

module _ (S : Services) (cfg : LambdaExtensionConfig) where
  -- The branch for "function"; with the enhancement off the item is replaced in the slice.
  abbrev pub with_message : Text → Fields → Result JsonMap → JsonMap
  with_message m fs (err e) =
      if cfg.enhance_json_logs
      then entries (set "message" (str m) fs)
      else entries (field "message" (str m) end)
  with_message m fs (ok js) =
      if cfg.enhance_json_logs then entries (set "message" (obj js) fs) else js

  unfoldable pub function_item : Fields → JsonMap
  function_item fs =
      let r = take_record (lookup "record" fs) fs in
      let m = trim_space r.0 in with_message m r.1 (parse_json S m)

  abbrev tab : Text
  tab = 9 ∷ []

  -- The line that `createCWLogLine` prints, from the record and its metrics.
  unfoldable pub report_line : JsonMap → JsonMap → Text
  report_line message metric =
      codes "REPORT RequestId: "
      ++ v "requestId" message
      ++ tab
      ++ codes "Duration: "
      ++ v "durationMs" metric
      ++ codes " ms"
      ++ tab
      ++ codes "Billed Duration: "
      ++ v "billedDurationMs" metric
      ++ codes " ms "
      ++ tab
      ++ codes "Memory Size: "
      ++ v "memorySizeMB" metric
      ++ codes " MB"
      ++ tab
      ++ codes "Max Memory Used: "
      ++ v "maxMemoryUsedMB" metric
      ++ codes " MB"
      ++ init (get "initDurationMs" metric)
    where
      v : String → JsonMap → Text
      v key m = S.format_value (get key m)

      init : Value → Text
      init null = []
      init d = tab ++ codes "Init Duration: " ++ S.format_value d ++ codes " ms"

  -- `message["metrics"].(map[string]interface{})` panics on any other value.
  abbrev pub with_metrics : Fields → JsonMap → Option JsonMap → Outcome JsonMap
  with_metrics fs message none = panic
  with_metrics fs message (some metric) =
      done (entries (set "message" (str (report_line message metric)) fs))

  abbrev pub record_map : Fields → JsonMap
  record_map fs = map_or_nil (as_map (get "record" (entries fs)))

  -- `createCWLogLine`
  unfoldable pub create_cw_log_line : Fields → Outcome JsonMap
  create_cw_log_line fs = with_metrics fs (record_map fs) (as_map (get "metrics" (record_map fs)))

  -- The branch for "platform.runtimeDone". The record is the item's own map, changed in place.
  abbrev pub without_spans : Fields → Option JsonMap → JsonMap
  without_spans fs none = entries fs
  without_spans fs (some message) =
      if has_key "spans" message && cfg.enable_span_drops
      then entries (set "record" (obj (delete_key "spans" message)) fs)
      else entries fs

  abbrev pub by_type : LogType → Fields → Outcome JsonMap
  by_type function fs = done (function_item fs)
  by_type report fs = create_cw_log_line fs
  by_type runtime_done fs = done (without_spans fs (as_map (get "record" (entries fs))))
  by_type other fs = done (entries fs)

  -- The four fields that every item gets.
  unfoldable pub tag_item : Fields → St (ClientState S) Fields
  tag_item fs s =
      let (stream, s1) = log_stream S cfg s in
      let (cold, s2) = get_cold_start S s1 in
      (
        set "LayerVersion" (str (layer_version_suffix S)) (
            set "IsColdStart" (bool cold)
              (set "logStream" (str stream) (set "logGroup" (str (log_group S cfg)) fs))),
        s2,
      )

  -- The loop's body: what the slice holds at the item's place afterwards.
  unfoldable pub enhance_item : JsonMap → St (ClientState S) (Outcome JsonMap)
  enhance_item nil_map s = (panic, s)
  enhance_item (entries fs) s =
      let r = tag_item fs s in (by_type (log_type (lookup "type" r.0)) r.0, r.1)

  abbrev pub join_items : Outcome JsonMap → Outcome (List JsonMap) → Outcome (List JsonMap)
  join_items panic r = panic
  join_items (done item) panic = panic
  join_items (done item) (done items) = done (item ∷ items)

  -- `enhanceLogs`
  unfoldable pub enhance_logs : List JsonMap → St (ClientState S) (Outcome (List JsonMap))
  enhance_logs [] s = (done [], s)
  enhance_logs (item ∷ items) s =
      let r = enhance_item item s in
      let rest = enhance_logs items r.1 in
      elim r.0 [ panic ↦ (panic, r.1) | done new ↦ (join_items (done new) rest.0, rest.1) ]
