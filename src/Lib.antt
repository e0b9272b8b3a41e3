-- ===== src/Lib.antt =====
-- Sub0Pipeline: a scheduler for jobs that form a directed acyclic graph.
--
-- A client builds a graph of jobs (emplace, succeed, precede and the setters of Job), the pipeline
-- validates it, and a run calls every job after its predecessors, on an executor or on the calling
-- thread. A failure ends the run and skips what depends on it, unless the job is optional. Deferred
-- jobs are finished later through a Completion. The remote part sends a graph of named jobs to a
-- worker as frames: a RemoteChannel holds the requests of a coordinator, a WorkerHost admits and answers
-- them, and payload strategies carry large payloads beside the frames, in chunks or in shared memory.
--
-- The files and the code they model (src/sub0pipeline.cpp unless another file is named):
--   Prelude: names of the libraries, Boolean tests, lists, and sums over a family of numbers.
--   Types: PipelineError of include/sub0pipeline/error.hpp, JobStatus of include/sub0pipeline/job.hpp,
--     std::expected and statusOf.
--   Graph: Pipeline::Node and the nodes of Impl, Impl::addNode, Job::succeed, Job::precede and the
--     setters of Job. Graph.Build holds the invariant of a graph, Graph.Edges one call of precede,
--     Graph.Reachable all sequences of calls, Graph.Degrees counts edges and Graph.Ranks says what
--     acyclic means.
--   Validate: Pipeline::validate, Kahn's algorithm. Its children hold the invariant of the loop and
--     the two directions of its correctness.
--   Invoke: Impl::invoke, invokeTimed and invokeWithDeadline. What other threads, the clock and the
--     deadline service do during the call is a JobEnv. Invoke.Outcomes says what a call leaves behind.
--   Run: Pipeline::runImpl on an executor with runsInline(), with recordFailure, enqueueSkip,
--     skipNode, dispatchJob and finishJob of its DispatchContext and the calls of the observer.
--     Run.Log reads the observer's calls, Run.Base to Run.Loop hold the invariant of the loop, and
--     Run.Completion the results. Run.Entry is the whole
--     run, with the validation that comes first.
--   Run.Threaded: Pipeline::runImpl on any other executor: a Move is one access of one thread to the
--     shared state, or one call of user code. A callback of job i is thread i, and the thread of run()
--     is the last one. Run.Threaded.Schedule lets the threads move in any order. Claims and Duties say
--     what each thread holds and owes, Books how jobs are counted; Moves, Transfers, Turns and Entries
--     are about one move, Safety, Progress and Accounts about the invariants, Reachable and Guarantees
--     about the states that a run reaches, Reports, Notices and Causes about what the observer and the
--     caller of run() are told, Chances and Deadlock about the moves that there are, and
--     Measure and Termination about how many there can be.
--   Successors: PoolSuccessors, the packed lists of successors, and the arena that all nodes share.
--     Run and Graph use the plain list that Successors.Refinement shows it to stand for.
--   Deferred: DeferredSlot, DeferredOrphans and Completion, one run of a deferred job as a step
--     relation: a step is one atomic access, or one section under the mutex of the orphans.
--   Wire: src/remote/wire.cpp with include/sub0pipeline/remote/payload.hpp, subgraph.hpp and wire.hpp.
--     Wire.Encode and Wire.Decode hold the two directions, Wire.Reads what a reader makes of bytes
--     that a writer wrote, Wire.Entries the parts of a request, Wire.Accepted what decodeRequest
--     accepts, and Wire.Handshake decodeHello.
--   Stream: FrameReader of include/sub0pipeline/remote/transport.hpp. Stream.Scans follows its loop,
--     Stream.Chunks cuts a stream into chunks, and Stream.Frames into frames.
--   Region: the state of SharedMemoryStrategy in src/remote/shared_memory.cpp, with its allocator of
--     blocks. Region.Sharing holds the operations of the strategy. Region.Extents, Region.Puts and
--     Region.Alignment are about the free list, Region.Cells and Region.Changes about the bytes that blocks
--     and free entries cover, Region.Held, Region.Uses, Region.Clearing and Region.Operations about one operation, Region.Life about any
--     sequence of them, Region.References about the references that travel, and Region.Setup about the
--     handshake and release frames.
--   Chunked: StreamStrategy of src/remote/stream_strategy.cpp. Chunked.Buffers follows the buffer of one
--     payload, Chunked.Delivery all the frames of a stream.
--   Carriers: src/remote/store_strategy.cpp and src/remote/payload_sender.hpp.
--   Channel: RemoteChannel of src/remote/channel.cpp. Channel.Handshake holds connect and the control
--     frames, Channel.Replies what ends a request, and Channel.System the steps of the threads: a step is
--     what one thread does while it holds the mutex. Channel.Queue, Channel.Invariant and
--     Channel.Launches are about single steps, Channel.Conservation, Channel.Results, Channel.Agreement and Channel.Terms about all.
--   Worker: WorkerHost of src/remote/worker_host.cpp. Worker.Frames holds the frames that it answers,
--     Worker.Replies the reply of a run, and Worker.System the steps of the transport's thread and the
--     runners. Worker.Counts and Worker.Steps count requests, Worker.Outputs and Worker.Sent are about the reply, and Worker.Capacity
--     about a worker that is full of answered requests. Worker.Pipeline builds and runs the pipeline of a
--     request, Worker.Emplacing and Worker.Building are about its graph, and Worker.Answers about the whole
--     of a run. Worker.Bodies holds the bodies of the jobs; Worker.Rounds defines statuses
--     without a run, and Worker.Outcomes is about those that a run gives.
--   Loopback: LoopbackTransport of src/remote/loopback_transport.cpp; a step of Loopback.Delivery is what
--     one thread does under the mutex.
--   Registry: JobRegistry of src/remote/registry.cpp; Registry.Lookup is about add and find.
--   TickLoop: src/tick_loop.cpp, over what each pass sees of the stop token and of the clock, at its start and
--     when it comes to each job.
--   Samples: concrete graphs, runs, arenas, interleavings, frames, regions, channels, workers,
--     requests, registries and passes.
--
-- Integers and bounds: a uint16_t or uint32_t counter keeps its wrap-around (inc32, dec32, `% 65536`),
-- and the invariants show that the counters of a graph do not wrap. A byte of a frame is a number, and
-- the shifts of the writer are quotients by 256. The in-degrees of a graph of at most 65536 jobs with
-- at most 32767 successors each stay below 2^31. Ids of blocks, requests and streams are 64 bits wide;
-- the steps that make a new one ask that they have not come round, and a send of a block asks that the
-- peer's holds of it do not reach 2^32.
--
-- Fuel: the loops of validate, of the inline run and of skipNode take as much fuel as the graph has
-- jobs, the loop of FrameReader::feed as much as the buffer has bytes, and that of StreamStrategy::send as
-- much as the payload has bytes and one more. Each round of the first two takes a job that no earlier
-- round took, each round of the third counts a job that was marked kSkipped once, a round of feed takes
-- five bytes at least, and a round of send one; the results below are about the functions with this fuel,
-- and say that it is enough.
--
-- A threaded run takes its atomic accesses as sequentially consistent, takes an executor as one that
-- accepts a callback or throws and calls each accepted callback once, and keeps no text of an error.
--
-- Not modelled: deferred jobs inside a run, trigger() and arm(), the timer service, the executors
-- and the pipe transport. Executors and pipes are calls of the platform; what a deadline service
-- answers a job is part of its JobEnv; the results on whole runs are about graphs without on-demand
-- jobs, which trigger() serves.
-- What a strategy, the store or the transport answers is an argument of the channel and of the worker,
-- and so is what a registered function answers and puts out; std::sort is an argument of the registry's
-- fingerprint. Left out are also the mapping of shared memory and the pipes, which are
-- calls of the operating system, memory exhaustion, and progress as a float, of which the numerator is kept.
pub mod Prelude
pub mod Types
pub mod Graph
pub mod Validate
pub mod Invoke
pub mod Run
pub mod Samples
pub mod Successors
pub mod Deferred
pub mod Wire
pub mod Stream
pub mod Region
pub mod Chunked
pub mod Channel
pub mod Worker
pub mod TickLoop
pub mod Loopback
pub mod Registry
pub mod Carriers
