-- ===== src/Lib.antt =====
-- A verification library of RoadSim: the Design Model of a road project, the commands that edit it,
-- the compiled network, the in-memory simulation backend, the protocol of worker processes, and the
-- lifecycle of a run.
--
-- The parts, and how they interact. A project (crates/roadsim-domain) holds a design catalog, a study
-- catalog and rules; its constructors validate what they are given and sort it into one canonical
-- order. The commands (crates/roadsim-commands) change a working list of corridors; a transaction
-- collects commands and is committed to a model state, which rebuilds the catalog by the domain's
-- constructors and moves the revision by one; a history executes commands on a state and keeps the
-- inverse of each for undo and redo. A backend (crates/roadsim-backend-api and
-- crates/roadsim-backend-fake) runs a scenario in a session, which takes controls and gives events.
-- What a backend gets of a project is a compiled network (crates/roadsim-compiled-network): tables of
-- lanes, movements, curves, conflicts, signals and demand, whose constructors check them one by one
-- and then against each other. A backend in a process of its own is sent requests and sends data in
-- frames on pipes (crates/roadsim-worker-protocol); a client (crates/roadsim-worker-client) has one
-- request in flight and stops the process when an answer does not belong to it. The application
-- (crates/roadsim-application) asks for the next step of a run, follows the states that a session
-- reports, and turns its frames into arrays for the renderer.
--
-- Which file models which part:
--   Prelude, Prelude/*      lists, results with `?`, sorting, lookup by identifier, membership, sorted
--                           lists without repetition (Canonical, Distinct), counting (Pigeonhole)
--   Types/*                 crates/roadsim-types: identifiers and references (Ids), scalars (Units),
--                           the sum and the order of doubles (Float, Order); Fault is the error of a
--                           code and sorted references that several crates declare
--   Domain/ReferenceLine, Corridor, Multimodal, Control, ControlCatalog, ControlChecks, Catalog,
--   Design, Scenario, Study, Rules, Text, Project
--                           the files of crates/roadsim-domain/src; Catalog and Design are
--                           `DesignCatalog` in corridor.rs, ControlCatalog and ControlChecks are the
--                           catalog and the validation in traffic_control.rs, Study is `StudyCatalog`
--                           in scenario.rs, Text is the checks of the text types
--   Domain/Stations, Domain/Flows, Domain/Design/Laws
--                           what the constructors establish
--   Commands/Primitive      the commands on the working list; Store is the map that they implement
--   Commands/State          `ModelState`, `ModelTransaction`, `CommandEnvelope`
--   Commands/History        `CommandHistory`; Session has sequences of calls
--   Backend/Seed, Backend/Agents
--                           `derive_seed`, and the agents of a frame, in crates/roadsim-backend-api
--   Backend/Api, Backend/Fake
--                           the contract, `FakeSession` with its calls, `FakeBackend` in Fake/Store, and
--                           commands that come again in Fake/Controls and Fake/Repeats
--   Network/Graph, Movements, Geometry, Pedestrian, Lanes, Demand, Controls
--                           a table each of crates/roadsim-compiled-network/src/lib.rs: `LaneGraph`,
--                           `MovementTable`, `MovementGeometryTable`, `PedestrianGraph`, `LaneTable`,
--                           `CompiledDemandTable`, `CompiledControlTable`, with their constructors;
--                           the loops of the last are in Controls/Groups and Controls/Programs
--   Network/Reach           the free function `can_reach`, which both graphs call
--   Network/Compiled        `CompiledNetwork`, `new` and `new_with_graphs`
--   Worker/Token, Config, Messages, Data, Frame
--                           crates/roadsim-worker-protocol/src/lib.rs: `AuthToken`; engine identities
--                           and `WorkerSessionConfig`; requests and responses; `WorkerDataEnvelope`
--                           with its validation; reading and writing of frames
--   Client, Client/Session, InStep, Correlated
--                           crates/roadsim-worker-client/src/lib.rs: `WorkerClient::request`, the
--                           calls made of it, and what holds over any sequence of them
--   Application/Run, Application/Snapshot
--                           crates/roadsim-application/src/lib.rs: `RunOrchestrator`, with sequences
--                           of calls in Run/Outcomes; `FrameSnapshotAdapter`
--
-- State and errors. A function that changes `&mut self` takes the state and returns the result with
-- the state after it; a `Result` is a `Result`, and `?` is the bind of a do block. Identifiers, digests
-- and ticks are native numbers; the identity of a model state, an address in the code, is a number. A
-- set or a map is the list of its members or entries, sorted where the code reads its order, and a
-- list of references in an error or an outcome is sorted and without repetitions, as the code leaves
-- it. The deque of the history is a list with its back first. A binary search is on a list that a
-- constructor sorted, and is the search for a member. An `f64` is its bit pattern: values that are not
-- negative compare as their patterns do, and `Float.add` is the IEEE 754 sum of two of them, rounded
-- to the nearest even. The texts of the worker protocol are their bytes.
--
-- Bounds and fuel. Revisions stop below 2^64 (`checked_next`), ticks saturate as in the code, and
-- the counter of frames wraps at 2^64. The loop of `can_reach` has a unit of fuel for each node of the
-- graph: a round takes one node off the stack, and a node is pushed only when its flag is set, once.
-- Its index into the flags is checked in the model and reported as `out_of_range`. `Float.add`
-- looks for a shift with 2100 units of fuel; the sum of two doubles has less than 2100 bits in units
-- of 2^-1074. No other function takes fuel.
--
-- Not modelled: decoding by serde, which calls the constructors; accessors; the text of messages;
-- floating-point geometry, with the constructors of reference-line segments that use it;
-- `FakeSession::frame`, which is an argument of `next_event`; poisoned locks; async calls, whose
-- bodies run here as one step each. The JSON library, a writer and the bytes that a reader gets are
-- arguments of the framing, and the process of a worker is an argument of its client, also for what
-- times out; paths are those of Unix, and the length of a compiled lane is left out. The narrowing of
-- an `f64` to an `f32` is an argument of the snapshots.
-- The compiler, the processes of the workers, the threads that read from them, the
-- work directories and the user interface are not
-- modelled; the in-memory backend keeps its own short view of a network, with what it reads of it.
pub mod Prelude
pub mod Types
pub mod Domain
pub mod Commands
pub mod Backend
pub mod Network
pub mod Worker
pub mod Application
pub mod Client
