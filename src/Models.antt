-- ===== src/Models.antt =====
-- src/openevent/model_proxy_sdk/models.py: the llm.v1 messages and their validation.
pub mod Value
pub mod Kind
pub mod Validate
pub mod Payload
pub mod Header
pub mod WellFormed
pub mod Members
pub mod Checked
pub mod Message
pub mod Input
pub mod RoundTrip
mod Tests
