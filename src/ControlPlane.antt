-- ===== src/ControlPlane.antt =====
-- backend/pixelflow/agent_control_plane/persistence: the turns of a conversation, and the lease
-- under which its context is compacted.
pub mod Turns
pub mod Compaction
pub mod Handover
pub mod Changes
pub mod Preservation
pub mod Effects
pub mod Operations
pub mod Endings
pub mod Requests
pub mod Progress
pub mod Fencing
pub mod Ordering
pub mod Repeats
pub mod Records
pub mod Events
pub mod Repository
pub mod Delivery
pub mod Closing
pub mod Orderly
pub mod Deliveries
pub mod Transcript
pub mod Conversations
pub mod Calls
pub mod Pages
pub mod Reading
mod Tests
mod EventTests
