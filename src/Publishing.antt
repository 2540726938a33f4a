-- ===== src/Publishing.antt =====
-- src/openevent/model_proxy_sdk/publishing.py: the publication of one frozen event, and the functions
-- around it.
pub mod Frozen
pub mod Publish
pub mod Calls
pub mod Sound
pub mod Positive
pub mod Guards
pub mod Api
pub mod Sites
mod Tests
