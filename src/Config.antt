-- ===== src/Config.antt =====
-- src/openevent/model_proxy/config.py: the worker's configuration.
pub mod Mapping
pub mod Checks
pub mod Parse
pub mod Sound
pub mod RoundTrip
pub mod Distinct
pub mod Settings
pub mod Tests
