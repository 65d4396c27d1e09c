-- ===== src/Examples/Client.antt =====
-- The Sumo client at concrete data.
use sumologic_lambda_extensi.Base.{
  map, ◌≡◌, ◌≢◌, ◌+◌, ok, refl, ◌⊎◌, ◌↔◌, ◌<◌, none, List, [], ◌∷◌, length, All, Member, arith,
}
use sumologic_lambda_extensi.Base.Text.{text_eq, codes, trim_space}
use sumologic_lambda_extensi.Json.{JsonMap, lookup, set, delete, Fields, entries, end, field, str}
use sumologic_lambda_extensi.Config.Defs.{LambdaExtensionConfig}
use sumologic_lambda_extensi.Utils.{retry, retry_rounds}
use sumologic_lambda_extensi.SumoClient.Services.{Bytes, Services, ClientState, initial_state}
use sumologic_lambda_extensi.SumoClient.Codecs.{
  compress, compress_buffer, parse_json, transform_bytes,
}
use sumologic_lambda_extensi.SumoClient.Chunks.{create_chunks, chunk_loop, chunk_item, add_item}
use sumologic_lambda_extensi.SumoClient.Chunks.Content.{
  rejoin, lines, marshalled, rejoin-create_chunks,
}
use sumologic_lambda_extensi.SumoClient.Chunks.Sizes.{create_chunks-Fits, create_chunks-error}
use sumologic_lambda_extensi.SumoClient.Endpoint.{
  get_cold_start, log_group, layer_version_suffix, now, log_stream, plaintext, send_request,
  make_request, get_http_endpoint, decrypt_endpoint,
}
use sumologic_lambda_extensi.SumoClient.Endpoint.Caching.{
  later, after_requests, get_http_endpoint-never_cached,
}
use sumologic_lambda_extensi.SumoClient.Enhance.{
  Outcome, done, panic, tag_item, log_type, function_item, enhance_item, enhance_logs,
}
use sumologic_lambda_extensi.SumoClient.Enhance.Frame.{OnDone, IsEnhanced, enhance_item-IsEnhanced}
use sumologic_lambda_extensi.SumoClient.Enhance.Panics.{PanicsOn, Any, enhance_logs-panic}
use sumologic_lambda_extensi.SumoClient.Send.{
  send_logs, flush_all, flush_loop, write_items, flush_bytes,
}
use sumologic_lambda_extensi.SumoClient.Send.Flushing.{Flushed, flush_all-Flushed}
use sumologic_lambda_extensi.SumoClient.Send.Healthy.{IsHealthy, Delivered, send_logs-Delivered}
use sumologic_lambda_extensi.SumoClient.Post.{
  failover_handler, get_s3_key_name, upload_to_s3, post_body, retry_post, after_retries,
  post_to_sumo,
}
use sumologic_lambda_extensi.SumoClient.Post.Effects.{Posts, post_to_sumo-Posts}
use sumologic_lambda_extensi.SumoClient.Post.Delivery.{Accepts, Stores, post_to_sumo-delivers}
use sumologic_lambda_extensi.Examples.Data.{
  function_log, bad_report, two_items, marshal_example, services, services-IsMonotone, settings,
}

rejoin-create_chunks_example :
    rejoin (create_chunks marshal_example 6 two_items).0
    ≡ lines (marshalled marshal_example two_items)
rejoin-create_chunks_example = rejoin-create_chunks marshal_example 6 two_items

create_chunks-Fits_example :
    All
      (λ chunk. (length chunk < 6) ⊎ Member chunk (marshalled marshal_example two_items))
      (create_chunks marshal_example 6 two_items).0
create_chunks-Fits_example = create_chunks-Fits marshal_example 6 two_items (omega arith)

create_chunks-error_example :
    ((create_chunks marshal_example 6 two_items).1 ≡ none)
    ↔ (length (marshalled marshal_example two_items) ≡ length two_items)
create_chunks-error_example = create_chunks-error marshal_example 6 two_items

abbrev started : ClientState services
started = initial_state services 0

abbrev two_bodies : List Bytes
two_bodies = (1 ∷ []) ∷ (2 ∷ []) ∷ []

get_http_endpoint-never_cached_example :
    get_http_endpoint services settings
      (after_requests services services-IsMonotone settings two_bodies started)
    ≡ decrypt_endpoint services settings (
        later services services-IsMonotone (
          later services services-IsMonotone
            (after_requests services services-IsMonotone settings two_bodies started)))
get_http_endpoint-never_cached_example =
    get_http_endpoint-never_cached services services-IsMonotone settings two_bodies 0 refl

abbrev log_fields : Fields
log_fields = field "type" (str (codes "function")) (field "record" (str (codes " hi ")) end)

enhance_item-IsEnhanced_example :
    OnDone
      (IsEnhanced services settings log_fields started)
      (enhance_item services settings (entries log_fields) started).0
enhance_item-IsEnhanced_example = enhance_item-IsEnhanced services settings log_fields started refl

enhance_logs-panic_example :
    ((enhance_logs services settings (function_log ∷ bad_report ∷ []) started).0 ≡ panic)
    ↔ Any services settings (PanicsOn services settings) (function_log ∷ bad_report ∷ [])
enhance_logs-panic_example =
    enhance_logs-panic services settings (function_log ∷ bad_report ∷ []) started

compressed : compress services (1 ∷ 2 ∷ []) ≡ ok (9 ∷ 1 ∷ 2 ∷ [])
unfolding compress
compressed = refl

post_to_sumo-Posts_example :
    Posts services settings
      (9 ∷ 1 ∷ 2 ∷ [])
      started
      (post_to_sumo services settings (1 ∷ 2 ∷ []) started).1
post_to_sumo-Posts_example =
    post_to_sumo-Posts services settings (1 ∷ 2 ∷ []) (9 ∷ 1 ∷ 2 ∷ []) started compressed

post_succeeds : (post_to_sumo services settings (1 ∷ 2 ∷ []) started).0 ≡ none
unfolding post_to_sumo post_body make_request get_http_endpoint now decrypt_endpoint plaintext
    send_request log_stream retry retry_rounds retry_post initial_state after_retries compress
post_succeeds = refl

-- Two requests: the first is answered by 429 and the second, after the sleep, by 200.
post_to_sumo-delivers_example :
    Accepts services settings
      (9 ∷ 1 ∷ 2 ∷ [])
      started
      (post_to_sumo services settings (1 ∷ 2 ∷ []) started).1
    ⊎ Stores services settings
        (9 ∷ 1 ∷ 2 ∷ [])
        started
        (post_to_sumo services settings (1 ∷ 2 ∷ []) started).1
post_to_sumo-delivers_example =
    post_to_sumo-delivers services settings (9 ∷ 1 ∷ 2 ∷ []) (1 ∷ 2 ∷ []) started compressed refl
      post_succeeds

-- An endpoint that takes everything.
abbrev pub healthy : Services
healthy = record services { http_do = λ r w. (ok 200, w + 5) }

abbrev pub plain_settings : LambdaExtensionConfig
plain_settings = record settings { kms_key_id = [] }

abbrev pub add_nine : Bytes → Bytes
add_nine b = 9 ∷ b

healthy-IsHealthy : IsHealthy healthy plain_settings add_nine
unfolding compress
healthy-IsHealthy = record {
  plain = refl;
  url = refl;
  answers = λ r w. refl;
  compresses = λ b. refl;
}

abbrev at_start : ClientState healthy
at_start = initial_state healthy 0

abbrev pub items_of : Outcome (List JsonMap) → List JsonMap
items_of (done items) = items
items_of panic = []

abbrev enhanced : List JsonMap
enhanced = items_of (enhance_logs healthy plain_settings (function_log ∷ []) at_start).0

one_log-enhanced :
    (enhance_logs healthy plain_settings (function_log ∷ []) at_start).0 ≡ done enhanced
unfolding enhance_logs enhance_item tag_item log_stream now get_cold_start log_group
    layer_version_suffix log_type function_item initial_state lookup set delete trim_space text_eq
one_log-enhanced = refl

enhanced-chunks : (create_chunks marshal_example 1024 enhanced).1 ≡ none
unfolding create_chunks chunk_loop chunk_item add_item enhance_logs enhance_item tag_item log_stream
    now get_cold_start log_group layer_version_suffix log_type function_item initial_state lookup
    set delete trim_space text_eq parse_json
enhanced-chunks = refl

send_logs-Delivered_example :
    ((send_logs healthy plain_settings (5 ∷ []) at_start).0 ≡ done none)
    × Delivered healthy plain_settings add_nine healthy-IsHealthy
        (map add_nine (create_chunks marshal_example 1024 enhanced).0)
        at_start
        (send_logs healthy plain_settings (5 ∷ []) at_start).1
send_logs-Delivered_example =
    send_logs-Delivered healthy plain_settings add_nine healthy-IsHealthy 5 [] (function_log ∷ [])
      enhanced at_start refl one_log-enhanced enhanced-chunks

-- One item of no known type in each message.
abbrev quiet : Services
quiet = record services { unmarshal_array = λ b. ok (entries (field "time" (str []) end) ∷ []) }

abbrev quiet_start : ClientState quiet
quiet_start = initial_state quiet 0

abbrev one_message : List Bytes
one_message = (5 ∷ []) ∷ []

one_message-some : one_message ≢ []
one_message-some e = cc

flush_succeeds : (flush_all quiet settings one_message quiet_start).0 ≡ done none
unfolding flush_all flush_loop write_items flush_bytes failover_handler get_s3_key_name upload_to_s3
    enhance_logs enhance_item tag_item log_stream now get_cold_start log_group layer_version_suffix
    log_type initial_state lookup set compress_buffer transform_bytes
flush_succeeds = refl

flush_all-Flushed_example :
    Flushed quiet settings one_message quiet_start
      (flush_all quiet settings one_message quiet_start).1
flush_all-Flushed_example =
    flush_all-Flushed quiet settings one_message quiet_start refl one_message-some flush_succeeds
