-- ===== src/SumoClient/Post.antt =====
-- lambda-extensions/sumoclient/sumoclient.go: `postToSumo` with its retries, and the failover to S3.
pub mod Requests
pub mod Effects
pub mod Delivery
use sumologic_lambda_extensi.Base.{
  ℕ, Bool, true, false, not, ◌&&◌, ◌==◌, Option, none, some, List, [], ◌∷◌, ◌++◌, ltb,
  if◌then◌else◌, Error, String, wrapped, status_code, Result, ok, err, St,
}
use sumologic_lambda_extensi.Base.Text.{Text, codes, decimal, decimal_2}
use sumologic_lambda_extensi.Utils.{Func, retry}
use sumologic_lambda_extensi.Config.Defs.{LambdaExtensionConfig}
use sumologic_lambda_extensi.SumoClient.Codecs.{compress}
use sumologic_lambda_extensi.SumoClient.Services.{Bytes, Date, Services, Upload, ClientState}
use sumologic_lambda_extensi.SumoClient.Endpoint.{in_world, now, make_request}

-- The status codes on which the code retries.
abbrev pub is_bad_status : ℕ → Bool
is_bad_status code = not (code == 200) && not (code == 302) && ltb code 500

-- The test on the response and the error of the first request.
abbrev pub is_failed : Result ℕ → Bool
is_failed (err e) = true
is_failed (ok code) = is_bad_status code

module _ (S : Services) (cfg : LambdaExtensionConfig) where
  abbrev slash : Text → Text → Text
  slash a b = a ++ b'/' ∷ b

  abbrev pub s3_key : Date → Text → Text
  s3_key d id = slash S.extension_name (
      slash cfg.lambda_region (
        slash cfg.function_name (
          slash cfg.function_version (
            slash (decimal d.year) (
              slash (decimal_2 d.month) (
                slash (decimal_2 d.day)
                  (slash (decimal_2 d.hour) (slash (decimal d.minute) (id ++ codes ".gz")))))))))

  -- `getS3KeyName`
  unfoldable pub get_s3_key_name : St (ClientState S) (Result Text)
  get_s3_key_name s =
      let (t, s1) = now S s in
      let r = S.new_uuid s1.world in
      (elim r.0 [ err e ↦ err e | ok id ↦ ok (s3_key (S.local t) id) ], in_world S s1 r.1)

  -- `utils.UploadToS3`
  unfoldable pub upload_to_s3 : Text → Text → Bytes → St (ClientState S) (Option Error)
  upload_to_s3 bucket key content s =
      let r = S.upload bucket key content s.world in
      (
        r.0,
        record s {
          world = r.1;
          uploads =
              s.uploads
              ++ record { bucket = bucket; key = key; content = content; error = r.0 } ∷ [];
        },
      )

  abbrev pub wrap_error : String → Option Error → Option Error
  wrap_error m none = none
  wrap_error m (some e) = some (wrapped m e)

  abbrev pub upload_as : Bytes → Result Text → St (ClientState S) (Option Error)
  upload_as content (err e) s = (some e, s)
  upload_as content (ok key) s =
      let r = upload_to_s3 cfg.s3_bucket_name key content s in
      (wrap_error "failed to send to s3 bucket" r.0, r.1)

  -- `failoverHandler`
  unfoldable pub failover_handler : Bytes → St (ClientState S) (Option Error)
  failover_handler content s =
      if cfg.enable_failover
      then (let r = get_s3_key_name s in upload_as content r.0 r.1)
      else (none, s)

  -- What the function given to `Retry` returns for the result of its request.
  abbrev pub judge : ℕ → Result ℕ → Bool × Option Error
  judge attempt (err e) = (ltb attempt cfg.max_retry_attempts, some e)
  judge attempt (ok code) =
      if is_bad_status code
      then (ltb attempt cfg.max_retry_attempts, some (status_code code))
      else if code == 200
      then (true, none)
      else (ltb attempt cfg.max_retry_attempts, none)

  -- The function given to `Retry`: it sleeps and sends the body again.
  unfoldable pub retry_post : Bytes → Func (ClientState S)
  retry_post body attempt s =
      let r = make_request S cfg body (in_world S s (S.sleep cfg.retry_sleep_time s.world)) in
      (judge attempt r.0, r.1)

  -- What follows the loop of retries.
  unfoldable pub after_retries : Bytes → Option Error → St (ClientState S) (Option Error)
  after_retries body none s = (none, s)
  after_retries body (some e) s = if cfg.enable_failover then failover_handler body s else (none, s)

  -- `postToSumo` behind the compression.
  unfoldable pub post_body : Bytes → St (ClientState S) (Option Error)
  post_body body s =
      let r = make_request S cfg body s in
      let u = retry (retry_post body) cfg.num_retry r.1 in
      if is_failed r.0 then after_retries body u.0 u.1 else (none, r.1)

  -- `postToSumo`: the error that it returns, if any.
  unfoldable pub post_to_sumo : Bytes → St (ClientState S) (Option Error)
  post_to_sumo text s = elim (compress S text) [
    | err e ↦ (some (wrapped "failed to compress log string" e), s)
    | ok body ↦ post_body body s
  ]
