-- ===== src/Iterator.antt =====
-- instanceiterator/iterator.go: an upgrade or another operation on all service instances, at most
-- `maxInFlight` at once, the canaries first.
pub mod Data
pub mod Steps
pub mod Loops
pub mod Whole
pub mod TriggerRule
pub mod PollRule
pub mod Running
pub mod InFlight
pub mod Frame
pub mod Livelock
pub mod Measure
pub mod Closing
pub mod Place
pub mod Progress
pub mod Ends
pub mod Polling
pub mod Waiting
pub mod Honest
pub mod Outcome
