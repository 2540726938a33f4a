-- ===== src/Provider.antt =====
-- src/openevent/model_proxy/provider.py: the framing of a server-sent event stream.
pub mod Frames
pub mod Chunks
pub mod Bounds
pub mod Events
pub mod Body
pub mod Printed
pub mod Chat
pub mod Call
pub mod Shape
pub mod Connect
pub mod Codes
pub mod Headers
pub mod Reportable
pub mod Socket
pub mod Closed
mod SocketTests
mod EventTests
mod Tests
