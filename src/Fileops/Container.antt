-- ===== src/Fileops/Container.antt =====
-- The container of examples/fileops/container.go: each part is built by a `sync.Once`, at its first use.
-- What the parts are built with is the record `Builders`: the packages of OpenTelemetry, net/http, slog
-- and sqlite. `os.Exit` ends the program: it is `none`. A builder's effects outside of the container,
-- such as the global providers and the default logger, are not modelled.
pub mod Once
use flicker.Prelude.{
  ℕ, ◌*◌, Bool, true, false, List, [], ◌∷◌, ◌++◌, Option, none, some, Text, is_empty, if◌then◌else◌,
}
use flicker.Time.{second}
use flicker.Errors.{Error, Result, ok, err}
use flicker.Engine.Options.{
  Parts, EngineOption, Engine, new_engine, with_workers, with_logger, with_drain_timeout,
}
use flicker.Fileops.Config.{Config, Level, trim_scheme}

pub record Builders (P : Parts) : Type 1 where
  pub Resource : Type 0
  pub Shutdown : Type 0
  pub Handler : Type 0
  pub Store : Type 0
  pub Factory : Type 0
  pub Mux : Type 0
  pub Server : Type 0
  pub new_resource : Result Resource
  pub new_prometheus : Resource → Result (Handler × Shutdown)
  pub new_tracing : Resource → Text → Result Shutdown
  pub new_json_logger : Level → P.Logger
  pub new_store : Result Store
  -- `FileWranglerDef.Register`.
  pub register : Engine P → Factory
  pub new_mux : Option Handler → Mux
  -- The address and the handler.
  pub new_server : Text → Mux → Server

module _ (P : Parts) (B : Builders P) where
  -- The fields of `once`, and those of `state`.
  pub record Container : Type 0 where
    pub config : Config
    pub otel_done : Bool
    pub logger_done : Bool
    pub store_done : Bool
    pub engine_done : Bool
    pub mux_done : Bool
    pub server_done : Bool
    pub logger : Option P.Logger
    pub metrics_handler : Option B.Handler
    pub shutdown_otel : Option (List B.Shutdown)
    pub store : Option B.Store
    pub engine : Option (Engine P)
    pub factory : Option B.Factory
    pub mux : Option B.Mux
    pub server : Option B.Server

  abbrev pub new_container : Config → Container
  new_container config = record {
    config = config;
    otel_done = false;
    logger_done = false;
    store_done = false;
    engine_done = false;
    mux_done = false;
    server_done = false;
    logger = none;
    metrics_handler = none;
    shutdown_otel = none;
    store = none;
    engine = none;
    factory = none;
    mux = none;
    server = none;
  }

  -- The tracing of `OTEL`, where an endpoint is configured.
  abbrev traced : List B.Shutdown → Result B.Shutdown → Container → Option Error × Container
  traced shutdowns (err e) c = (some e, c)
  traced shutdowns (ok s) c = (none, record c { shutdown_otel = some (shutdowns ++ (s ∷ [])) })

  abbrev with_metrics :
      B.Resource → Result (B.Handler × B.Shutdown) → Container → Option Error × Container
  with_metrics res (err e) c = (some e, c)
  with_metrics res (ok (handler, shutdown)) c =
      let c' = record c { metrics_handler = some handler } in
      if is_empty c.config.otlp_endpoint
      then (none, record c' { shutdown_otel = some (shutdown ∷ []) })
      else traced (shutdown ∷ []) (B.new_tracing res (trim_scheme c.config.otlp_endpoint)) c'

  abbrev with_resource : Result B.Resource → Container → Option Error × Container
  with_resource (err e) c = (some e, c)
  with_resource (ok res) c = with_metrics res (B.new_prometheus res) c

  -- The error of `OTEL` beside the container, whose `metrics_handler` is the other result.
  unfoldable pub otel : Container → Option Error × Container
  unfolding trim_scheme
  otel c =
      if c.otel_done
      then (none, c)
      else with_resource B.new_resource (record c { otel_done = true })

  abbrev with_telemetry : Option Error × Container → Option Container
  with_telemetry (some e, c) = none
  with_telemetry (none, c) =
      some (record c { logger = some (B.new_json_logger c.config.log_level) })

  unfoldable pub get_logger : Container → Option Container
  unfolding otel
  get_logger c =
      if c.logger_done then some c else with_telemetry (otel (record c { logger_done = true }))

  abbrev with_store : Result B.Store → Container → Option Container
  with_store (err e) c = none
  with_store (ok s) c = some (record c { store = some s })

  unfoldable pub get_store : Container → Option Container
  get_store c =
      if c.store_done then some c else with_store B.new_store (record c { store_done = true })

  abbrev engine_options : P.Logger → List (EngineOption P)
  engine_options logger =
      with_workers 4 ∷ with_logger logger ∷ with_drain_timeout (10 * second) ∷ []

  abbrev logger_or_default : Option P.Logger → P.Logger
  logger_or_default none = P.default_logger
  logger_or_default (some l) = l

  abbrev with_engine : Option Container → Option Container
  with_engine none = none
  with_engine (some c) =
      let e = new_engine P (engine_options (logger_or_default c.logger)) in
      some (record c { engine = some e; factory = some (B.register e) })

  abbrev and_then : Option Container → (Container → Option Container) → Option Container
  and_then none f = none
  and_then (some c) f = f c

  -- `Engine`, and `Factory`, which calls it.
  unfoldable pub get_engine : Container → Option Container
  unfolding get_store get_logger new_engine
  get_engine c =
      if c.engine_done
      then some c
      else with_engine (and_then (get_store (record c { engine_done = true })) get_logger)

  abbrev shown : Option Error × Container → Option B.Handler × Container
  shown (some e, c) = (none, c)
  shown (none, c) = (c.metrics_handler, c)

  unfoldable pub get_mux : Container → Container
  unfolding otel
  get_mux c =
      if c.mux_done
      then c
      else let (handler, c') = shown (otel (record c { mux_done = true })) in
        record c' { mux = some (B.new_mux handler) }

  abbrev with_server : Option B.Mux → Container → Container
  with_server none c = c
  with_server (some mux) c = record c { server = some (B.new_server c.config.server_addr mux) }

  unfoldable pub get_server : Container → Container
  unfolding get_mux
  get_server c =
      if c.server_done
      then c
      else let c' = get_mux (record c { server_done = true }) in with_server c'.mux c'
