-- ===== src/Client.antt =====
-- src/openevent/model_proxy_sdk/openai.py and the error classes of errors.py: what a caller gets from
-- the items of its call.
pub mod Errors
pub mod Stream
pub mod Close
pub mod Create
pub mod Settings
pub mod SettingsAccepted
pub mod Outcome
pub mod Closed
pub mod Created
pub mod Final
pub mod Iterate
mod CreateTests
mod Tests
