-- ===== src/SumoClient/Codecs.antt =====
-- lambda-extensions/utils/utils.go: `Compress`, `CompressBuffer` and `ParseJson`, and
-- `transformBytesToArrayOfMap` of lambda-extensions/sumoclient/sumoclient.go, over the gzip writer and
-- encoding/json.
use sumologic_lambda_extensi.Base.{◌≡◌, refl, List, String, wrapped, Result, ok, err}
use sumologic_lambda_extensi.Base.Text.{Text}
use sumologic_lambda_extensi.Json.{JsonMap}
use sumologic_lambda_extensi.SumoClient.Services.{Bytes, Services}

-- `fmt.Errorf` around the error of a call.
abbrev wrap_result : {A : Type 0} → String → Result A → Result A
wrap_result m (ok a) = ok a
wrap_result m (err e) = err (wrapped m e)

abbrev and_then : {A B : Type 0} → Result A → (A → Result B) → Result B
and_then (ok a) f = f a
and_then (err e) f = err e

module _ (S : Services) where
  -- `Compress`: the bytes are in the buffer only behind `Close`.
  unfoldable pub compress : Bytes → Result Bytes
  compress text =
      and_then (wrap_result "failed to write log string" (S.gzip_write text))
        λ g. wrap_result "failed to close gzip writer" (S.gzip_close g)

  -- `CompressBuffer`
  unfoldable pub compress_buffer : Bytes → Result Bytes
  compress_buffer text =
      and_then (wrap_result "failed to compress buffer" (S.gzip_write text))
        λ g. wrap_result "failed to close gzip writer" (S.gzip_close g)

  -- `ParseJson`
  unfoldable pub parse_json : Text → Result JsonMap
  parse_json s = S.unmarshal_object s

  -- `transformBytesToArrayOfMap`
  unfoldable pub transform_bytes : Bytes → Result (List JsonMap)
  transform_bytes raw = wrap_result "error in parsing payload" (S.unmarshal_array raw)

  pub transform_bytes-ok :
      (raw : Bytes) (items : List JsonMap)
      → S.unmarshal_array raw ≡ ok items
      → transform_bytes raw ≡ ok items
  unfolding transform_bytes
  transform_bytes-ok raw items h = rw h refl
