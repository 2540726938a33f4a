-- ===== src/Rpc.antt =====
-- src/openevent/model_proxy_sdk/rpc.py: bounded retries. The outside world answers through `World`: by
-- the number of calls made so far, what each call of the operation does and whether the owner has
-- stopped. The loops also return how many calls were made. Delays have no length here.
pub mod Status
pub mod Retry
pub mod Bounds
pub mod Returned
mod Tests
