-- ===== src/Json.antt =====
-- src/openevent/model_proxy_sdk/_json.py: integers of any size, in decimal groups, and the encoder.
pub mod Digits
pub mod Integer
pub mod RoundTrip
pub mod Encode
pub mod Total
mod Tests
