-- ===== src/Examples/Batches.antt =====
-- Batches of messages, one of which does not parse.
use sumologic_lambda_extensi.Base.{◌+◌, ◌≡◌, refl, none, List, [], ◌∷◌, map, foreign, ok, err}
use sumologic_lambda_extensi.Base.Text.{text_eq, trim_space}
use sumologic_lambda_extensi.Json.{JsonMap, lookup, set, delete}
use sumologic_lambda_extensi.SumoClient.Services.{Bytes, Services, ClientState, initial_state}
use sumologic_lambda_extensi.SumoClient.Codecs.{
  compress, compress_buffer, parse_json, transform_bytes,
}
use sumologic_lambda_extensi.SumoClient.Chunks.{create_chunks, chunk_loop, chunk_item, add_item}
use sumologic_lambda_extensi.SumoClient.Chunks.Content.{marshalled, lines}
use sumologic_lambda_extensi.SumoClient.Endpoint.{
  get_cold_start, log_group, layer_version_suffix, now, log_stream,
}
use sumologic_lambda_extensi.SumoClient.Enhance.{
  done, tag_item, log_type, function_item, enhance_item, enhance_logs,
}
use sumologic_lambda_extensi.SumoClient.Post.{failover_handler}
use sumologic_lambda_extensi.SumoClient.Send.{count_error, flush_error, send_all_logs, flush_all}
use sumologic_lambda_extensi.SumoClient.Send.Enhancing.{
  refused, Enhances, no_more, malformed, parsed,
}
use sumologic_lambda_extensi.SumoClient.Send.Healthy.{IsHealthy, Delivered}
use sumologic_lambda_extensi.SumoClient.Send.Batches.{send_all_logs-Delivered, flush_all-lines}
use sumologic_lambda_extensi.Examples.Data.{function_log, marshal_example}
use sumologic_lambda_extensi.Examples.Client.{healthy, plain_settings, add_nine, items_of}

-- An endpoint that takes everything, and an empty message that does not parse.
abbrev strict : Services
strict = record healthy {
  unmarshal_array = λ b. elim b [ [] ↦ err (foreign []) | c ∷ cs ↦ ok (function_log ∷ []) ];
}

strict-IsHealthy : IsHealthy strict plain_settings add_nine
unfolding compress
strict-IsHealthy = record {
  plain = refl;
  url = refl;
  answers = λ r w. refl;
  compresses = λ b. refl;
}

abbrev at_start : ClientState strict
at_start = initial_state strict 0

abbrev behind : ClientState strict
behind = (enhance_logs strict plain_settings (function_log ∷ []) at_start).1

abbrev new_items : List JsonMap
new_items = items_of (enhance_logs strict plain_settings (function_log ∷ []) at_start).0

abbrev two_messages : List Bytes
two_messages = (5 ∷ []) ∷ [] ∷ []

enhanced_lem :
    enhance_logs strict plain_settings (function_log ∷ []) at_start ≡ (done new_items, behind)
unfolding enhance_logs enhance_item tag_item log_stream now get_cold_start log_group
    layer_version_suffix log_type function_item initial_state lookup set delete trim_space text_eq
enhanced_lem = refl

two_messages-Enhances : Enhances strict plain_settings two_messages at_start new_items 1 behind
unfolding enhance_logs enhance_item tag_item log_stream now get_cold_start log_group
    layer_version_suffix log_type function_item initial_state lookup set delete trim_space text_eq
    parse_json transform_bytes
two_messages-Enhances =
    parsed (5 ∷ []) ([] ∷ []) (function_log ∷ []) new_items [] at_start behind behind 1 refl
      enhanced_lem (malformed [] [] _ behind behind [] 0 refl (no_more behind))

new_items-chunks : (create_chunks marshal_example 1024 new_items).1 ≡ none
unfolding create_chunks chunk_loop chunk_item add_item enhance_logs enhance_item tag_item log_stream
    now get_cold_start log_group layer_version_suffix log_type function_item initial_state lookup
    set delete trim_space text_eq parse_json
new_items-chunks = refl

send_all_logs-Delivered_example :
    ((send_all_logs strict plain_settings two_messages at_start).0
      ≡ done (count_error "SendAllLogs: Errors during postToSumo" 1))
    × Delivered strict plain_settings add_nine strict-IsHealthy
        (map add_nine (create_chunks marshal_example 1024 new_items).0)
        at_start
        (send_all_logs strict plain_settings two_messages at_start).1
send_all_logs-Delivered_example =
    send_all_logs-Delivered strict plain_settings add_nine strict-IsHealthy (5 ∷ []) ([] ∷ [])
      new_items at_start behind 1 two_messages-Enhances new_items-chunks

abbrev flushed : Bytes
flushed = 9 ∷ lines (marshalled marshal_example new_items)

flushed_lem : compress_buffer strict (lines (marshalled marshal_example new_items)) ≡ ok flushed
unfolding compress_buffer
flushed_lem = refl

flush_all-lines_example : flush_all strict plain_settings two_messages at_start ≡ (
  done (
      flush_error strict plain_settings
        (1 + refused marshal_example new_items)
        (failover_handler strict plain_settings flushed behind).0),
  (failover_handler strict plain_settings flushed behind).1,
)
flush_all-lines_example =
    flush_all-lines strict plain_settings (5 ∷ []) ([] ∷ []) at_start behind new_items 1 flushed
      refl two_messages-Enhances flushed_lem
