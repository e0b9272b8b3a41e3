-- ===== src/Samples.antt =====
-- Concrete graphs, runs, arenas, interleavings and frames.
pub mod Graphs
pub mod Runs
pub mod Threaded
pub mod Successors
pub mod Deferred
pub mod Frames
pub mod Stream
pub mod Entry
pub mod Region
pub mod Chunked
pub mod Channel
pub mod Worker
pub mod Requests
pub mod TickLoop
pub mod Loopback
pub mod Registry
pub mod Carriers
