-- ===== src/Main/Startup.antt =====
-- lambda-extensions/sumologic-extension.go: `init` and `main`, with the constructors that they call, and
-- `init` of lambda-extensions/utils/awsutils.go.
pub mod Starting
pub mod Program
use sumologic_lambda_extensi.Base.{
  ℕ, Bool, true, false, Option, none, some, List, [], ◌∷◌, String, if◌then◌else◌, ℤ, pos, negsuc,
  Error, Result, ok, err,
}
use sumologic_lambda_extensi.Base.Text.{Text, codes, text_eq}
use sumologic_lambda_extensi.Config.Defs.{LambdaExtensionConfig, Env, Parsers}
use sumologic_lambda_extensi.Config.Validate.{get_config}
use sumologic_lambda_extensi.SumoClient.Services.{Bytes, Services, initial_state}
use sumologic_lambda_extensi.Workers.Channel.{Run, returns, blocks, panics, diverges, Channel, make}
use sumologic_lambda_extensi.Workers.Sender.{LogSender, sumo_sender}
use sumologic_lambda_extensi.Workers.Consumer.{◌>>=◌, Consumer}
use sumologic_lambda_extensi.Workers.Contended.{Worker}
use sumologic_lambda_extensi.Workers.ManagedProducer.{Server}
use sumologic_lambda_extensi.Workers.ManagedLoop.{Managed}
use sumologic_lambda_extensi.LambdaApi.HttpClient.{Network, ApiState, new_client}
use sumologic_lambda_extensi.LambdaApi.Calls.{next_event}
use sumologic_lambda_extensi.Main.{Turn, System, Next, goes_on, stops, process_events}

-- `os.LookupEnv`, and `os.Getenv` by it.
abbrev pub Lookup : Type 0
Lookup = String → Option Text

abbrev pub value_or : Text → Option Text → Text
value_or other none = other
value_or other (some value) = value

abbrev pub getenv : Lookup → Env
getenv look name = value_or [] (look name)

-- The AWS SDK, as far as awsutils.go calls it: `config.LoadDefaultConfig` for a region, and
-- `manager.NewUploader` of an S3 client.
pub record Sdk : Type 1 where
  pub AwsConfig : Type 0
  pub Uploader : Type 0
  pub load_default_config : Text → Result AwsConfig
  pub new_uploader : AwsConfig → Uploader

-- The region of the uploader: that of the bucket, or else the function's.
unfoldable pub upload_region : Lookup → Text
upload_region look = value_or (getenv look "AWS_REGION") (look "SUMO_S3_BUCKET_REGION")

-- `init` of awsutils.go
unfoldable pub init_uploader : (A : Sdk) → Lookup → Run A.Uploader
init_uploader A look = elim (A.load_default_config (upload_region look)) [
  | ok cfg ↦ returns (A.new_uploader cfg)
  | err e ↦ panics
]

-- `make(chan A, n)` panics for a negative number.
unfoldable pub make_chan : {A : Type 0} → ℤ → Run (Channel A)
make_chan (pos n) = returns (make n)
make_chan (negsuc n) = panics

-- `NewManagedInstanceTaskProducer`
abbrev pub new_managed_instance_task_producer : Channel Bytes → Channel String → Server
new_managed_instance_task_producer queue signals = record {
  data_queue = queue;
  flush_signal = signals;
}

module _ (L : LogSender) where
  -- `NewTaskConsumer`, with `NewLogSenderClient` as the sender.
  abbrev pub new_task_consumer : Channel Bytes → L.State → Consumer L
  new_task_consumer queue sender = record { queue = queue; sender = sender }

  -- `NewManagedInstanceTaskConsumer`, which gets the channels of the producer.
  abbrev pub new_managed_instance : Channel Bytes → Channel String → L.State → Managed L
  new_managed_instance queue signals sender = record {
    server = new_managed_instance_task_producer queue signals;
    sender = sender;
  }

module _ (S : Services) (ps : Parsers) where
  -- The package variables behind `init`. The channels stand with those that use them; a variable that
  -- `init` does not set is nil.
  pub record Globals : Type 0 where
    pub config : LambdaExtensionConfig
    pub is_managed_instance : Bool
    pub consumer : Option (Consumer (sumo_sender S config))
    pub managed : Option (Managed (sumo_sender S config))

  abbrev pub set_up :
      LambdaExtensionConfig → Bool → Channel Bytes → Channel String → S.World → Globals
  set_up cfg true queue signals w = record {
    config = cfg;
    is_managed_instance = true;
    consumer = none;
    managed = some (new_managed_instance (sumo_sender S cfg) queue signals (initial_state S w));
  }
  set_up cfg false queue signals w = record {
    config = cfg;
    is_managed_instance = false;
    consumer = some (new_task_consumer (sumo_sender S cfg) queue (initial_state S w));
    managed = none;
  }

  abbrev pub managed_type : Env → Bool
  managed_type env =
      text_eq (env "AWS_LAMBDA_INITIALIZATION_TYPE") (codes "lambda-managed-instances")

  -- `init`: an error of `GetConfig` is only logged.
  unfoldable pub main_init : Env → S.World → Run Globals
  main_init env w = do
    queue ← make_chan (get_config ps env).0.max_data_queue_length
    returns (set_up (get_config ps env).0 (managed_type env) queue (make 10) w)

-- `Start` of the standard producer: `ListenAndServe` blocks, or returns an error.
unfoldable pub start_server : (String → Run (Option Error)) → Run (Option Error)
start_server listen_and_serve = do
  e ← listen_and_serve "0.0.0.0:4243"
  elim e [ some x ↦ panics | none ↦ returns none ]

-- `Start` of the managed instance producer
unfoldable pub start_managed_server : (String → Run (Option Error)) → Run (Option Error)
start_managed_server listen_and_serve = do
  e ← listen_and_serve "0.0.0.0:4243"
  elim e [ some x ↦ panics | none ↦ returns none ]

module _ (L : LogSender) (N : Network) where
  -- `extensionClient` before its first call.
  abbrev pub new_api : Env → Text → N.World → ApiState N
  new_api env name w = record {
    client = new_client (env "AWS_LAMBDA_RUNTIME_API") name;
    world = w;
    calls = [];
  }

  -- At the start no handler waits for room in the queue.
  abbrev pub at_start : Option (Consumer L) → Option (Worker L)
  at_start none = none
  at_start (some c) =
      some (record { line = record { channel = c.queue; waiting = [] }; sender = c.sender })

  abbrev pub new_system : Option (Consumer L) → ApiState N → System L N
  new_system consumer api = record { api = api; consumer = at_start consumer }

  -- How `main` stands: in the loop, behind its end, or behind the recovery from a panic.
  pub data Exit : Type 0 where
    running stopped : System L N → Exit
    recovered : ApiState N → Exit

  -- The deferred function: behind a panic it asks for the next event once more, whatever the answer. The
  -- client's state at the panic is `api`.
  abbrev pub recover_in : ApiState N → Run (Next L N) → Run Exit
  recover_in api (returns (goes_on s)) = returns (running s)
  recover_in api (returns (stops s)) = returns (stopped s)
  recover_in api blocks = blocks
  recover_in api panics = returns (recovered (next_event N api).1)
  recover_in api diverges = diverges

  -- `main`, over so many turns; whether the context is done is in the turns.
  unfoldable pub main :
      LambdaExtensionConfig → Bool → List Turn → ApiState N → System L N → Run Exit
  main cfg managed ts api s = recover_in api (process_events L N cfg managed ts s)
