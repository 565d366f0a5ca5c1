-- ===== src/Reader.antt =====
-- src/python_api/reader: what the loop does with each completion. This module has the state that a
-- completion changes; its children have the copy loop, the cases of the switch, and the loop.
pub mod Gather
pub mod State
pub mod Results
pub mod FileCases
pub mod SocketCases
pub mod MessageCases
pub mod Cases
pub mod Ready
pub mod Events
pub mod Removal
pub mod Stale
pub mod Found
pub mod Failure
pub mod Success
pub mod Reads
pub mod Writes
mod Tests
