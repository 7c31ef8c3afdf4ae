-- ===== src/Fileops/Container/Once.antt =====
-- `OTEL` called twice.
use flicker.Prelude.{
  ◌≡◌, refl, ap, true, List, [], ◌∷◌, none, some, arith, is_empty, Bool-cases, inl, inr,
}
use flicker.Errors.{Error, Result, ok, err}
use flicker.Engine.Options.{Parts}
use flicker.Fileops.Config.{Config, trim_scheme}
use flicker.Fileops.Container.{
  Builders, Container, new_container, traced, with_metrics, with_resource, otel, with_telemetry,
  get_logger, shown, get_mux,
}

module _ (P : Parts) (B : Builders P) where
  traced-done :
      (shutdowns : List B.Shutdown) (r : Result B.Shutdown) (c : Container P B)
      → (traced P B shutdowns r c).1.otel_done ≡ c.otel_done
  traced-done shutdowns (err e) c = refl
  traced-done shutdowns (ok s) c = refl

  with_metrics-done :
      (res : B.Resource) (r : Result (B.Handler × B.Shutdown)) (c : Container P B)
      → (with_metrics P B res r c).1.otel_done ≡ c.otel_done
  with_metrics-done res (err e) c = refl
  with_metrics-done res (ok (handler, shutdown)) c =
      elim (Bool-cases (is_empty c.config.otlp_endpoint)) [
        | inl bare ↦ rw bare refl
        | inr set' ↦ rw set' (
            traced-done (shutdown ∷ []) (B.new_tracing res (trim_scheme c.config.otlp_endpoint))
              (record c { metrics_handler = some handler }))
      ]

  with_resource-done :
      (r : Result B.Resource) (c : Container P B)
      → (with_resource P B r c).1.otel_done ≡ c.otel_done
  with_resource-done (err e) c = refl
  with_resource-done (ok res) c = with_metrics-done res (B.new_prometheus res) c

  otel-done : (c : Container P B) → (otel P B c).1.otel_done ≡ true
  unfolding otel
  otel-done c = elim (Bool-cases c.otel_done) [
    | inl again ↦ ground (arith, again)
    | inr first ↦ rw first (with_resource-done B.new_resource (record c { otel_done = true }))
  ]

  done-otel : (c : Container P B) → c.otel_done ≡ true → otel P B c ≡ (none, c)
  unfolding otel
  done-otel c h = ground (arith, h)

  -- OpenTelemetry is set up at most once, and only the first call of `OTEL` reports that this failed: a
  -- later one returns no error and changes nothing. So `Logger` ends the program where the set-up fails
  -- in its own call, and goes on without telemetry where `Mux` was called before.
  otel_reports_once :
      (c : Container P B) (config : Config) (e : Error)
      → B.new_resource ≡ err e
      → (otel P B (otel P B c).1 ≡ (none, (otel P B c).1))
        × (get_logger P B (new_container P B config) ≡ none)
        × ((d : Container P B) × (get_logger P B (get_mux P B (new_container P B config)) ≡ some d))
  unfolding otel get_logger get_mux
  otel_reports_once c config e broken =
      let asked : Container P B = record (new_container P B config) {
        mux_done = true;
        otel_done = true;
      } in
      let bare : Container P B = record asked { mux = some (B.new_mux none) } in
      let failed : otel P B (record (new_container P B config) { mux_done = true })
          ≡ (some e, asked) =
        ap (λ r. with_resource P B r asked) broken in
      let shown_bare : get_mux P B (new_container P B config) ≡ bare =
        ap (λ x. let (handler, c') = shown P B x in record c' { mux = some (B.new_mux handler) })
          failed in
      (
        done-otel (otel P B c).1 (otel-done c),
        ap
            (λ r. with_telemetry P B (
              with_resource P B r
                (record (new_container P B config) { logger_done = true; otel_done = true })))
            broken,
        (
          record bare { logger_done = true; logger = some (B.new_json_logger config.log_level) },
          ap (get_logger P B) shown_bare,
        ),
      )
