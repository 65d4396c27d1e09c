-- ===== src/Config/Validate/Problems/Checks.antt =====
-- The checks of the endpoint and of the bucket.
use sumologic_lambda_extensi.Base.{
  Bool, true, false, not, ◌&&◌, none, some, List, [], ◌∷◌, ◌++◌, if◌then◌else◌,
}
use sumologic_lambda_extensi.Base.Text.{is_empty}
use sumologic_lambda_extensi.Config.Defs.{
  LambdaExtensionConfig, Parsers, ConfigError, cause, not_set, not_valid, Checked, add_error,
}
use sumologic_lambda_extensi.Config.Validate.{check_endpoint, check_buckets}
use sumologic_lambda_extensi.Config.Validate.Problems.{problem_if}
use sumologic_lambda_extensi.Config.Validate.Problems.Adding.{
  Adds, Adds-trans, Adds-none, Adds-one, Adds-cleared, Adds-problem,
}

-- The endpoint's check.
abbrev pub uri_problem : Parsers → LambdaExtensionConfig → List ConfigError
uri_problem ps cfg =
    if is_empty cfg.sumo_http_endpoint
    then not_set "SUMO_HTTP_ENDPOINT" ∷ []
    else if is_empty cfg.kms_key_id
    then (if ps.is_request_uri cfg.sumo_http_endpoint
        then []
        else not_valid "SUMO_HTTP_ENDPOINT" ∷ [])
    else []

-- The check by its three tests: no endpoint, no key, and a URI.
abbrev endpoint_by : Bool → Bool → Bool → Checked → Checked
endpoint_by b k u c =
    let d = if b then add_error (not_set "SUMO_HTTP_ENDPOINT") c else c in
    if not b && k
    then if u then record d { failure = none } else record d {
      all_errors = d.all_errors ++ not_valid "SUMO_HTTP_ENDPOINT" ∷ [];
      failure = some (cause (not_valid "SUMO_HTTP_ENDPOINT"));
    }
    else d

endpoint_by-Adds :
    (b k u : Bool) (c : Checked)
    → Adds
        (if b
          then not_set "SUMO_HTTP_ENDPOINT" ∷ []
          else if k
          then (if u then [] else not_valid "SUMO_HTTP_ENDPOINT" ∷ [])
          else [])
        c
        (endpoint_by b k u c)
endpoint_by-Adds true k u c = Adds-one c c.config _ c.failure
endpoint_by-Adds false false u c = Adds-none c c.config
endpoint_by-Adds false true true c = Adds-cleared c c.config
endpoint_by-Adds false true false c = Adds-one c c.config _ _

pub check_endpoint-Adds :
    (ps : Parsers) (c : Checked) → Adds (uri_problem ps c.config) c (check_endpoint ps c)
unfolding check_endpoint
check_endpoint-Adds ps c =
    endpoint_by-Adds (is_empty c.config.sumo_http_endpoint) (is_empty c.config.kms_key_id)
      (ps.is_request_uri c.config.sumo_http_endpoint) c

abbrev pub region_problems : LambdaExtensionConfig → List ConfigError
region_problems cfg =
    if cfg.enable_failover
    then problem_if (is_empty cfg.s3_bucket_name) (not_set "SUMO_S3_BUCKET_NAME")
      ++ problem_if (is_empty cfg.s3_bucket_region) (not_set "SUMO_S3_BUCKET_REGION")
    else []

abbrev check_region : Checked → Checked
check_region d =
    if is_empty d.config.s3_bucket_region then add_error (not_set "SUMO_S3_BUCKET_REGION") d else d

-- The check by the tests on the failover and on the bucket.
buckets_by-Adds :
    (on b : Bool) (c : Checked)
    → Adds
        (if on
          then problem_if b (not_set "SUMO_S3_BUCKET_NAME")
            ++ problem_if (is_empty c.config.s3_bucket_region) (not_set "SUMO_S3_BUCKET_REGION")
          else [])
        c
        (if on
          then check_region (if b then add_error (not_set "SUMO_S3_BUCKET_NAME") c else c)
          else c)
buckets_by-Adds false b c = Adds-none c c.config
buckets_by-Adds true false c = Adds-problem (is_empty c.config.s3_bucket_region) _ c
buckets_by-Adds true true c = Adds-trans (Adds-one c c.config _ c.failure) (
    Adds-problem (is_empty c.config.s3_bucket_region) (not_set "SUMO_S3_BUCKET_REGION")
      (add_error (not_set "SUMO_S3_BUCKET_NAME") c))

pub check_buckets-Adds : (c : Checked) → Adds (region_problems c.config) c (check_buckets c)
unfolding check_buckets
check_buckets-Adds c = buckets_by-Adds c.config.enable_failover (is_empty c.config.s3_bucket_name) c
