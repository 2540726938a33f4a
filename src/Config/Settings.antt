-- ===== src/Config/Settings.antt =====
-- What the worker's logic reads of the configuration.
use openevent_modules_model.Base.{map}
use openevent_modules_model.Config.Parse.{Config}
use openevent_modules_model.Worker.State.{Settings}

unfoldable pub settings_of : Config → Settings
settings_of c = record {
  max_concurrency = c.worker.max_concurrency;
  max_payload_bytes = c.max_payload_bytes;
  default_provider = c.default_provider;
  providers = map (λ p. p.0) c.providers;
}
