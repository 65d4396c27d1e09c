-- ===== src/SumoClient/Services.antt =====
-- What sumoclient.go calls and does not implement, and the state that a client and its package
-- variables hold.
use sumologic_lambda_extensi.Base.{
  ℕ, ◌≤◌, ◌-◌, ◌*◌, Bool, true, Option, List, [], String, ℤ, Error, Result,
}
use sumologic_lambda_extensi.Base.Text.{Text}
use sumologic_lambda_extensi.Json.{Value, JsonMap}

abbrev pub Bytes : Type 0
Bytes = List ℕ

pub record Date : Type 0 where
  pub year : ℕ
  pub month : ℕ
  pub day : ℕ
  pub hour : ℕ
  pub minute : ℕ

-- A request of sumoclient.go or of lambdaapi; headers in the order of their `Add` calls.
pub record Request : Type 0 where
  pub method : String
  pub url : Text
  pub headers : List (String × Text)
  pub body : Bytes

-- `kms.DecryptInput`; the encryption context has the one key "LambdaFunctionName".
pub record DecryptInput : Type 0 where
  pub ciphertext_blob : Bytes
  pub key_id : Text
  pub lambda_function_name : Text

-- The clock, the codecs and the services behind the network. A `World` is all that they depend on;
-- `clock w` is the time at `w`, in nanoseconds, and `pass w` a later moment with nothing called.
pub record Services : Type 1 where
  pub World : Type 0
  pub clock : World → ℕ
  pub pass : World → World
  pub sleep : ℤ → World → World
  pub utc : ℕ → Date
  pub local : ℕ → Date
  pub getenv : String → Text
  pub extension_name : Text
  pub new_uuid : World → Result Text × World
  pub load_aws_config : World → Option Error × World
  pub decode_base64 : Text → Result Bytes
  pub kms_decrypt : DecryptInput → World → Result Text × World
  pub request_error : Text → Option Error
  -- The status code of the response.
  pub http_do : Request → World → Result ℕ × World
  pub upload : Text → Text → Bytes → World → Option Error × World
  -- A gzip writer that a text was written to, and its bytes behind `Close`.
  pub GzipWriter : Type 0
  pub gzip_write : Bytes → Result GzipWriter
  pub gzip_close : GzipWriter → Result Bytes
  pub unmarshal_array : Bytes → Result (List JsonMap)
  pub unmarshal_object : Text → Result JsonMap
  pub marshal : JsonMap → Result Bytes
  pub format_value : Value → Text

-- The clock does not go back.
pub record IsMonotone (S : Services) : Type 0 where
  pub pass_mono : (w : S.World) → S.clock w ≤ S.clock (S.pass w)
  pub sleep_mono : (d : ℤ) (w : S.World) → S.clock w ≤ S.clock (S.sleep d w)
  pub uuid_mono : (w : S.World) → S.clock w ≤ S.clock (S.new_uuid w).1
  pub aws_mono : (w : S.World) → S.clock w ≤ S.clock (S.load_aws_config w).1
  pub kms_mono : (i : DecryptInput) (w : S.World) → S.clock w ≤ S.clock (S.kms_decrypt i w).1
  pub http_mono : (r : Request) (w : S.World) → S.clock w ≤ S.clock (S.http_do r w).1
  pub upload_mono :
      (b k : Text) (d : Bytes) (w : S.World) → S.clock w ≤ S.clock (S.upload b k d w).1

-- A request that was sent, with the status code or the error that came back.
pub record Exchange : Type 0 where
  pub request : Request
  pub answer : Result ℕ

-- An object that was handed to S3, with the error that came back, if any.
pub record Upload : Type 0 where
  pub bucket : Text
  pub key : Text
  pub content : Bytes
  pub error : Option Error

-- The package variables `isColdStart`, `decryptedSumoHttpEndpoint` and `kmsEndpointCacheTime`, the
-- world, and, oldest first, what was handed to the HTTP client and to the uploader so far.
pub record ClientState (S : Services) : Type 0 where
  pub world : S.World
  pub is_cold_start : Bool
  pub decrypted_endpoint : Text
  pub endpoint_cache_time : ℕ
  pub requests : List Exchange
  pub uploads : List Upload

-- The variables as the package initialises them: the cache ran out five minutes ago.
unfoldable pub initial_state : (S : Services) → S.World → ClientState S
initial_state S w = record {
  world = S.pass w;
  is_cold_start = true;
  decrypted_endpoint = [];
  endpoint_cache_time = S.clock w - 300 * 1000000000;
  requests = [];
  uploads = [];
}
