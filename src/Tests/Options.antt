-- ===== src/Tests/Options.antt =====
-- An engine whose clock is set behind the workers, twice, with a pool of its own.
use flicker.Prelude.{List, [], ◌∷◌, some, Text, codes}
use flicker.Engine.Options.{
  Parts, EngineOption, with_workers, with_promoter, with_now_func, with_pool,
}

-- Every part is named by a text.
abbrev names : Parts
names = record {
  Promoter = Text;
  Scheduler = Text;
  Runner = Text;
  WorkerPool = Text;
  LeaseStore = Text;
  Logger = Text;
  IdFunc = Text;
  NowFunc = Text;
  TracerProvider = Text;
  MeterProvider = Text;
  default_logger = codes "slog";
  uuid_string = codes "uuid";
  utc_now = codes "utc";
}

abbrev options : List (EngineOption names)
options =
    with_workers 4
    ∷ with_now_func (codes "frozen")
    ∷ with_promoter (codes "queue")
    ∷ with_pool (some (codes "ants"))
    ∷ with_now_func (codes "stepped")
    ∷ []
