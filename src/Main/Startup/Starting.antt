-- ===== src/Main/Startup/Starting.antt =====
-- What `init` leaves, in both modes.
use sumologic_lambda_extensi.Base.{
  ℕ, ◌≡◌, refl, ◌∙◌, ap, sym, Bool, true, false, Option, none, some, List, [], String, ℤ, pos,
  negsuc, subst, Error, Result, ok, err, arith,
}
use sumologic_lambda_extensi.Base.Text.{Text, is_empty}
use sumologic_lambda_extensi.Config.Defs.{LambdaExtensionConfig, Env, Parsers}
use sumologic_lambda_extensi.Config.Validate.{get_config}
use sumologic_lambda_extensi.Config.Validate.Accepts.{get_config-IsAccepted}
use sumologic_lambda_extensi.Config.Validate.Given.{get_config-IsGiven}
use sumologic_lambda_extensi.SumoClient.Services.{Bytes, Services}
use sumologic_lambda_extensi.Workers.Channel.{Run, returns, panics, Channel, make}
use sumologic_lambda_extensi.Workers.Sender.{sumo_sender}
use sumologic_lambda_extensi.Workers.Consumer.{◌>>=◌, Consumer}
use sumologic_lambda_extensi.Workers.Consumer.Draining.{IsOpen}
use sumologic_lambda_extensi.Workers.ManagedProducer.{Event}
use sumologic_lambda_extensi.Workers.ManagedLoop.{Managed}
use sumologic_lambda_extensi.Workers.ManagedLoop.Together.{IsServed}
use sumologic_lambda_extensi.Main.Startup.{
  Sdk, init_uploader, Lookup, value_or, getenv, upload_region, make_chan, Globals, set_up,
  managed_type, main_init,
}

make-IsOpen : {A : Type 0} (n : ℕ) → IsOpen {A = A} (make n)
unfolding make
make-IsOpen n = record { open' = refl; fits = omega arith }

module _ (S : Services) (ps : Parsers) (unmarshal_events : Bytes → Result (List Event)) where
  -- The part of the mode that runs, ready for its first message, and the other nil.
  pub data Started (env : Env) (n : ℕ) (g : Globals S ps) : Type 0 where
    standard :
        (c : Consumer (sumo_sender S g.config))
        → managed_type S ps env ≡ false
        → g.is_managed_instance ≡ false
        → g.consumer ≡ some c
        → g.managed ≡ none
        → c.queue ≡ make n
        → IsOpen c.queue
        → Started env n g
    managed :
        (m : Managed (sumo_sender S g.config))
        → managed_type S ps env ≡ true
        → g.is_managed_instance ≡ true
        → g.consumer ≡ none
        → g.managed ≡ some m
        → m.server.data_queue ≡ make n
        → IsServed (sumo_sender S g.config) unmarshal_events g.config m
        → Started env n g

  -- `init` panics at a negative length, and otherwise the part of the mode is started with a queue of
  -- that length.
  abbrev pub Starts : Env → Run (Globals S ps) → Type 0
  Starts env (returns g) =
      (g.config ≡ (get_config ps env).0)
      × (n : ℕ) × (g.config.max_data_queue_length ≡ pos n)
      × Started env n g
  Starts env panics = (n : ℕ) × ((get_config ps env).0.max_data_queue_length ≡ negsuc n)
  Starts env _ = ⊥

  set_up-Started :
      (env : Env) (cfg : LambdaExtensionConfig) (b : Bool) (n : ℕ) (w : S.World)
      → managed_type S ps env ≡ b
      → Started env n (set_up S ps cfg b (make n) (make 10) w)
  unfolding make
  set_up-Started env cfg true n w h = managed _ h refl refl refl refl (record {
    running = record { queue = make-IsOpen n; signals = make-IsOpen 10; room = omega arith };
    names = tt;
    pending = λ high some'. absurd (some' refl);
  })
  set_up-Started env cfg false n w h = standard _ h refl refl refl refl (make-IsOpen n)

  set_up-config :
      (cfg : LambdaExtensionConfig) (b : Bool) (q : Channel Bytes) (r : Channel String)
      (w : S.World)
      → (set_up S ps cfg b q r w).config ≡ cfg
  set_up-config cfg true q r w = refl
  set_up-config cfg false q r w = refl

  made-Starts :
      (env : Env) (w : S.World) (n : ℤ)
      → (get_config ps env).0.max_data_queue_length ≡ n
      → Starts env (
          make_chan n >>= λ queue.
          returns (set_up S ps (get_config ps env).0 (managed_type S ps env) queue (make 10) w))
  unfolding make_chan
  made-Starts env w (pos n) h =
      let e = set_up-config (get_config ps env).0 (managed_type S ps env) (make n) (make 10) w in
      (
        e,
        n,
        ap (λ (cfg : LambdaExtensionConfig). cfg.max_data_queue_length) e ∙ h,
        set_up-Started env (get_config ps env).0 (managed_type S ps env) n w refl,
      )
  made-Starts env w (negsuc n) h = (n, h)

  -- For every environment, also one that `GetConfig` refuses, `init` returns or panics. It panics only
  -- if the queue's length is negative. Otherwise it has the settings of `GetConfig`, and started the
  -- part of the mode that AWS_LAMBDA_INITIALIZATION_TYPE asks for, with an empty open queue, and in
  -- managed instance mode with a running server; the other part is nil.
  pub main_init-Starts : (env : Env) (w : S.World) → Starts env (main_init S ps env w)
  unfolding main_init
  main_init-Starts env w = made-Starts env w (get_config ps env).0.max_data_queue_length refl

value_or-nil :
    (other : Text) (r : Option Text)
    → is_empty (value_or [] r) ≡ false
    → value_or other r ≡ value_or [] r
value_or-nil other none h = cc
value_or-nil other (some value) h = refl

upload_region-bucket :
    (ps : Parsers) (look : Lookup)
    → (get_config ps (getenv look)).1 ≡ none
    → (get_config ps (getenv look)).0.enable_failover ≡ true
    → upload_region look ≡ (get_config ps (getenv look)).0.s3_bucket_region
unfolding upload_region
upload_region-bucket ps look h on =
    let e = (get_config-IsGiven ps (getenv look)).region in
    let f = ((get_config-IsAccepted ps (getenv look) h).bucket on).1 in
    value_or-nil (getenv look "AWS_REGION") (look "SUMO_S3_BUCKET_REGION") (ap is_empty (sym e) ∙ f)
    ∙ sym e

-- The uploader is one of the SDK's configuration for this region, or the SDK has none and `init` panics.
abbrev pub UploadsFrom : (A : Sdk) → Text → Run A.Uploader → Type 0
UploadsFrom A region (returns u) =
    (c : A.AwsConfig) × (A.load_default_config region ≡ ok c) × (u ≡ A.new_uploader c)
UploadsFrom A region panics = (e : Error) × (A.load_default_config region ≡ err e)
UploadsFrom A region _ = ⊥

init_uploader-UploadsFrom :
    (A : Sdk) (look : Lookup) → UploadsFrom A (upload_region look) (init_uploader A look)
unfolding init_uploader
init_uploader-UploadsFrom A look = loaded (A.load_default_config (upload_region look)) refl
  where
    loaded :
        (r : Result A.AwsConfig)
        → A.load_default_config (upload_region look) ≡ r
        → UploadsFrom A
            (upload_region look)
            (elim r [ ok cfg ↦ returns (A.new_uploader cfg) | err e ↦ panics ])
    loaded (ok c) e = (c, e, refl)
    loaded (err x) e = (x, e)

-- If `GetConfig` returns no error and the failover is enabled, then `init` of awsutils.go builds the
-- uploader of the SDK's configuration for the region of the configured bucket, and panics only if loading
-- that configuration fails.
pub init_uploader-bucket :
    (A : Sdk) (ps : Parsers) (look : Lookup)
    → (get_config ps (getenv look)).1 ≡ none
    → (get_config ps (getenv look)).0.enable_failover ≡ true
    → UploadsFrom A (get_config ps (getenv look)).0.s3_bucket_region (init_uploader A look)
init_uploader-bucket A ps look h on =
    subst (λ r. UploadsFrom A r (init_uploader A look)) (upload_region-bucket ps look h on)
      (init_uploader-UploadsFrom A look)
