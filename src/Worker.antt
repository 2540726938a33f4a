-- ===== src/Worker.antt =====
-- src/openevent/model_proxy/worker.py: one ordered subscription, bounded provider tasks, and control
-- output.
pub mod State
pub mod Accept
pub mod Queues
pub mod Kept
pub mod Grows
pub mod Reach
pub mod Slots
pub mod Invariant
pub mod Safety
pub mod Events
pub mod ErrorEvent
pub mod Task
pub mod Linked
pub mod Chain
pub mod Received
pub mod WellFormed
pub mod Answer
pub mod EndToEnd
pub mod Whole
pub mod Running
pub mod Takes
pub mod Held
pub mod Progress
pub mod Turn
pub mod Emit
pub mod Emitted
pub mod Run
pub mod Stops
pub mod Once
pub mod Recover
pub mod History
pub mod Scan
pub mod Resume
pub mod Resumed
mod TurnTests
mod AnswerTests
mod EmitTests
mod OnceTests
mod WholeTests
mod WellFormedTests
mod EventTests
mod ScanTests
mod ResumedTests
mod Tests
