-- ===== src/Engine/Options/Settled.antt =====
-- What a list of options says of each field of the engine, read from the options alone: the last
-- option of a kind counts, and the promoters follow each other.
use flicker.Prelude.{ℕ, Bool, List, [], ◌∷◌, ◌++◌, Option, none, some, ◌*◌, false}
use flicker.Time.{second}
use flicker.Semconv.{Conventions}
use flicker.Engine.Options.{
  Parts, EngineOption, Settings, Engine, new_telemetry, given_or, with_workers, with_time_promoter,
  with_promoter, with_logger, with_id_func, with_now_func, with_runner, with_scheduler,
  with_drain_timeout, with_pool, with_tracer_provider, with_meter_provider, with_conventions,
  with_lease_store, with_cache_hit_spans,
}

abbrev pub or_else : {A : Type 0} → Option A → A → A
or_else none a = a
or_else (some b) a = b

module _ (P : Parts) where
  -- What the last option of a kind says.
  unfoldable pub last_of :
      {A : Type 0} → (EngineOption P → Option A) → List (EngineOption P) → Option A
  last_of f [] = none
  last_of f (o ∷ os) = elim (last_of f os) [ some a ↦ some a | none ↦ f o ]

  abbrev pub workers_of : EngineOption P → Option ℕ
  workers_of (with_workers a) = some a
  workers_of _ = none

  abbrev pub drain_timeout_of : EngineOption P → Option ℕ
  drain_timeout_of (with_drain_timeout a) = some a
  drain_timeout_of _ = none

  abbrev pub logger_of : EngineOption P → Option P.Logger
  logger_of (with_logger a) = some a
  logger_of _ = none

  abbrev pub id_func_of : EngineOption P → Option P.IdFunc
  id_func_of (with_id_func a) = some a
  id_func_of _ = none

  abbrev pub now_func_of : EngineOption P → Option P.NowFunc
  now_func_of (with_now_func a) = some a
  now_func_of _ = none

  abbrev pub leases_of : EngineOption P → Option (Option P.LeaseStore)
  leases_of (with_lease_store a) = some a
  leases_of _ = none

  abbrev pub time_promoter_of : EngineOption P → Option (Option P.Promoter)
  time_promoter_of (with_time_promoter a) = some a
  time_promoter_of _ = none

  abbrev pub scheduler_of : EngineOption P → Option (Option P.Scheduler)
  scheduler_of (with_scheduler a) = some a
  scheduler_of _ = none

  abbrev pub runner_of : EngineOption P → Option (Option P.Runner)
  runner_of (with_runner a) = some a
  runner_of _ = none

  abbrev pub pool_of : EngineOption P → Option (Option P.WorkerPool)
  pool_of (with_pool a) = some a
  pool_of _ = none

  abbrev pub tracer_provider_of : EngineOption P → Option (Option P.TracerProvider)
  tracer_provider_of (with_tracer_provider a) = some a
  tracer_provider_of _ = none

  abbrev pub meter_provider_of : EngineOption P → Option (Option P.MeterProvider)
  meter_provider_of (with_meter_provider a) = some a
  meter_provider_of _ = none

  abbrev pub conventions_of : EngineOption P → Option (Option Conventions)
  conventions_of (with_conventions a) = some a
  conventions_of _ = none

  abbrev pub cache_hit_spans_of : EngineOption P → Option Bool
  cache_hit_spans_of (with_cache_hit_spans a) = some a
  cache_hit_spans_of _ = none

  abbrev pub promoter_of : EngineOption P → List P.Promoter
  promoter_of (with_promoter p) = p ∷ []
  promoter_of _ = []

  abbrev pub promoters_of : List (EngineOption P) → List P.Promoter
  promoters_of [] = []
  promoters_of (o ∷ os) = promoter_of o ++ promoters_of os

  -- Every field by the last option for it, and the promoters in their order.
  abbrev pub settings_of : List (EngineOption P) → Settings P
  settings_of os = record {
    workers = or_else (last_of workers_of os) 1;
    drain_timeout = or_else (last_of drain_timeout_of os) (30 * second);
    logger = or_else (last_of logger_of os) P.default_logger;
    id_func = or_else (last_of id_func_of os) P.uuid_string;
    now_func = or_else (last_of now_func_of os) P.utc_now;
    leases = or_else (last_of leases_of os) none;
    time_promoter = or_else (last_of time_promoter_of os) none;
    scheduler = or_else (last_of scheduler_of os) none;
    runner = or_else (last_of runner_of os) none;
    pool = or_else (last_of pool_of os) none;
    tracer_provider = or_else (last_of tracer_provider_of os) none;
    meter_provider = or_else (last_of meter_provider_of os) none;
    conventions = or_else (last_of conventions_of os) none;
    cache_hit_spans = or_else (last_of cache_hit_spans_of os) false;
    promoters = promoters_of os;
  }

  -- The engine with these settings.
  abbrev pub engine_of : List (EngineOption P) → Engine P
  engine_of os =
      let telemetry =
        new_telemetry P (settings_of os).tracer_provider (settings_of os).meter_provider
          (settings_of os).conventions (settings_of os).cache_hit_spans in
      record {
        settings = settings_of os;
        leases = given_or (settings_of os).leases tt;
        tel = telemetry;
        time_promoter = given_or (settings_of os).time_promoter (record {
          interval = second;
          now_func = (settings_of os).now_func;
          logger = (settings_of os).logger;
          tel = telemetry;
        });
        scheduler = given_or (settings_of os).scheduler (settings_of os).workers;
        runner = given_or (settings_of os).runner (record {
          leases = given_or (settings_of os).leases tt;
          logger = (settings_of os).logger;
          now_func = (settings_of os).now_func;
          id_func = (settings_of os).id_func;
          tel = telemetry;
        });
        pool = given_or (settings_of os).pool (settings_of os).workers;
      }
