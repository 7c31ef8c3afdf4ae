-- ===== src/Engine/Options.antt =====
-- `NewEngine` of engine.go with its options, and the defaults of `newTelemetry` of otel.go. What a
-- client gives is a value of a type of `Parts`; an interface or a pointer that may be nil is an Option.
-- Numbers of workers and durations are not negative.
pub mod Settled
pub mod Order
use flicker.Prelude.{ℕ, ◌*◌, Bool, false, List, [], ◌∷◌, ◌++◌, Option, none, some, Text, codes}
use flicker.Time.{second}
use flicker.Semconv.{Conventions, default_conventions}

-- The types of package trace, metric, slog and of the interfaces of the engine; the default
-- logger, clock and generator of identifiers.
pub record Parts : Type 1 where
  pub Promoter : Type 0
  pub Scheduler : Type 0
  pub Runner : Type 0
  pub WorkerPool : Type 0
  pub LeaseStore : Type 0
  pub Logger : Type 0
  pub IdFunc : Type 0
  pub NowFunc : Type 0
  pub TracerProvider : Type 0
  pub MeterProvider : Type 0
  pub default_logger : Logger
  pub uuid_string : IdFunc
  pub utc_now : NowFunc

pub data Part (A B : Type 0) : Type 0 where
  given : A → Part A B
  built : B → Part A B

abbrev pub given_or : {A B : Type 0} → Option A → B → Part A B
given_or none b = built b
given_or (some a) b = given a

module _ (P : Parts) where
  pub data EngineOption : Type 0 where
    with_workers : ℕ → EngineOption
    with_time_promoter : Option P.Promoter → EngineOption
    with_promoter : P.Promoter → EngineOption
    with_logger : P.Logger → EngineOption
    with_id_func : P.IdFunc → EngineOption
    with_now_func : P.NowFunc → EngineOption
    with_runner : Option P.Runner → EngineOption
    with_scheduler : Option P.Scheduler → EngineOption
    with_drain_timeout : ℕ → EngineOption
    with_pool : Option P.WorkerPool → EngineOption
    with_tracer_provider : Option P.TracerProvider → EngineOption
    with_meter_provider : Option P.MeterProvider → EngineOption
    with_conventions : Option Conventions → EngineOption
    with_lease_store : Option P.LeaseStore → EngineOption
    with_cache_hit_spans : Bool → EngineOption

  -- The fields of `Engine` that options set.
  pub record Settings : Type 0 where
    pub workers : ℕ
    pub drain_timeout : ℕ
    pub logger : P.Logger
    pub id_func : P.IdFunc
    pub now_func : P.NowFunc
    pub leases : Option P.LeaseStore
    pub time_promoter : Option P.Promoter
    pub promoters : List P.Promoter
    pub scheduler : Option P.Scheduler
    pub runner : Option P.Runner
    pub pool : Option P.WorkerPool
    pub tracer_provider : Option P.TracerProvider
    pub meter_provider : Option P.MeterProvider
    pub conventions : Option Conventions
    pub cache_hit_spans : Bool

  abbrev pub initial : Settings
  initial = record {
    workers = 1;
    drain_timeout = 30 * second;
    logger = P.default_logger;
    id_func = P.uuid_string;
    now_func = P.utc_now;
    leases = none;
    time_promoter = none;
    promoters = [];
    scheduler = none;
    runner = none;
    pool = none;
    tracer_provider = none;
    meter_provider = none;
    conventions = none;
    cache_hit_spans = false;
  }

  unfoldable pub apply : EngineOption → Settings → Settings
  apply (with_workers n) e = record e { workers = n }
  apply (with_time_promoter p) e = record e { time_promoter = p }
  apply (with_promoter p) e = record e { promoters = e.promoters ++ (p ∷ []) }
  apply (with_logger l) e = record e { logger = l }
  apply (with_id_func fn) e = record e { id_func = fn }
  apply (with_now_func fn) e = record e { now_func = fn }
  apply (with_runner r) e = record e { runner = r }
  apply (with_scheduler s) e = record e { scheduler = s }
  apply (with_drain_timeout d) e = record e { drain_timeout = d }
  apply (with_pool p) e = record e { pool = p }
  apply (with_tracer_provider tp) e = record e { tracer_provider = tp }
  apply (with_meter_provider mp) e = record e { meter_provider = mp }
  apply (with_conventions conv) e = record e { conventions = conv }
  apply (with_lease_store ls) e = record e { leases = ls }
  apply (with_cache_hit_spans enabled) e = record e { cache_hit_spans = enabled }

  unfoldable pub apply_all : List EngineOption → Settings → Settings
  unfolding apply
  apply_all [] e = e
  apply_all (o ∷ os) e = apply_all os (apply o e)

  -- `newTelemetry`; the global providers stand for nil.
  pub record Telemetry : Type 0 where
    pub tracer : Part P.TracerProvider (Unit {0})
    pub meter : Part P.MeterProvider (Unit {0})
    pub conv : Conventions
    pub cache_hit_spans : Bool

  abbrev conventions_or : Option Conventions → Conventions
  conventions_or none = default_conventions
  conventions_or (some c) = c

  unfoldable pub new_telemetry :
      Option P.TracerProvider → Option P.MeterProvider → Option Conventions → Bool → Telemetry
  new_telemetry tp mp conv cache_hit_spans = record {
    tracer = given_or tp tt;
    meter = given_or mp tt;
    conv = conventions_or conv;
    cache_hit_spans = cache_hit_spans;
  }

  -- The default parts with the fields that they are built from, beside the store, the registry and
  -- the channel `nudge`. The built lease store is `NewMemoryLeaseStore()`, the scheduler has the limit
  -- of its polls and the pool its size.
  pub record PollingTimePromoter : Type 0 where
    pub interval : ℕ
    pub now_func : P.NowFunc
    pub logger : P.Logger
    pub tel : Telemetry

  pub record LocalRunner : Type 0 where
    pub leases : Part P.LeaseStore (Unit {0})
    pub logger : P.Logger
    pub now_func : P.NowFunc
    pub id_func : P.IdFunc
    pub tel : Telemetry

  pub record Engine : Type 0 where
    pub settings : Settings
    pub leases : Part P.LeaseStore (Unit {0})
    pub tel : Telemetry
    pub time_promoter : Part P.Promoter PollingTimePromoter
    pub scheduler : Part P.Scheduler ℕ
    pub runner : Part P.Runner LocalRunner
    pub pool : Part P.WorkerPool ℕ

  -- `NewEngine`.
  unfoldable pub new_engine : List EngineOption → Engine
  unfolding apply_all new_telemetry
  new_engine opts =
      let e = apply_all opts initial in
      let leases = given_or e.leases tt in
      let tel = new_telemetry e.tracer_provider e.meter_provider e.conventions e.cache_hit_spans in
      record {
        settings = e;
        leases = leases;
        tel = tel;
        time_promoter =
            given_or e.time_promoter
              (record { interval = second; now_func = e.now_func; logger = e.logger; tel = tel });
        scheduler = given_or e.scheduler e.workers;
        runner = given_or e.runner (record {
          leases = leases;
          logger = e.logger;
          now_func = e.now_func;
          id_func = e.id_func;
          tel = tel;
        });
        pool = given_or e.pool e.workers;
      }
