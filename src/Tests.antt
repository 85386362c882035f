-- ===== src/Tests.antt =====
-- Runs of the theorems on concrete inputs, and the inputs.
pub mod Toys
pub mod Frames
pub mod Streams
pub mod Play
pub mod Messages
pub mod Threads
pub mod Clock
pub mod Roster
pub mod Arguments
pub mod Passes
pub mod Mocks
pub mod Programs
pub mod System
pub mod Locked
pub mod Steering
pub mod Closing
pub mod Protocol
