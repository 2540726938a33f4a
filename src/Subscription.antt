-- ===== src/Subscription.antt =====
-- src/openevent/model_proxy_sdk/subscription.py: one reader and one lock for the calls of a client.
pub mod State
pub mod Locked
pub mod Output
pub mod Accept
pub mod Client
pub mod Invariant
pub mod Detached
pub mod Preserve
pub mod AcceptValid
pub mod Reach
pub mod Delivery
pub mod Orderly
pub mod Refine
pub mod Ended
pub mod Failure
mod Tests
