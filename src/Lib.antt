-- ===== src/Lib.antt =====
-- A model of the C++ side of lean-capnproto, the bridge between Lean and Cap'n Proto's RPC and async
-- runtimes (ffi/), and of the Cap'n Proto compiler plugin that writes Lean code (plugin/). Lean holds
-- promises, capabilities and payloads of C++ by number; the bridge keeps the tables behind these
-- numbers and decodes what Lean sends as bytes; the plugin gives names to the declarations that the
-- Lean side uses.
--
-- Files and code:
--   Wire: the bytes that cross the bridge. Wire/Words is readUint*Le and appendUint*Le of
--     ffi/rpc_bridge_common.cpp; Wire/Tables is decodeCapTable and decodePipelineOps of the same file
--     and decodeUint32Array of ffi/kj_async_bridge.cpp; Wire/Headers is encodeHeaderPairs and
--     decodeHeaderPairs of ffi/kj_async_bridge.cpp.
--   PayloadRef: ffi/rpc_bridge_payload_ref.cpp, the registry of payloads; PayloadRef/Token is the class
--     RetainedRuntimePayloadRef of ffi/rpc_bridge_payload_ref.h.
--   KjPromises: ffi/kj_async_bridge.cpp, class KjAsyncRuntimeLoop, from addPromise to releasePromise;
--     KjPromises/TaskSets has the task sets, KjPromises/Calls any sequence of operations.
--   Targets: ffi/rpc_bridge_runtime.cpp, class RuntimeLoop: targets_ and the peers behind them.
--     Targets/Resolves has the promise capabilities, with their queue of held resolves; Targets/Calls
--     any sequence of operations on both.
--   Requests: ffi/rpc_bridge_runtime.cpp, class RuntimeLoop: the queue, the worker's loop in run,
--     shutdown and failPendingCalls, over any handlers; Requests/TargetService has the requests for
--     targets and promise capabilities.
--   UnitPromises: ffi/rpc_bridge_runtime.cpp, class RuntimeLoop: the promises without a value, the tasks
--     that await them and their completions; UnitPromises/Events any sequence of requests and turns.
--   Vats: ffi/rpc_bridge_generic_vat.{h,cpp}: GenericVatNetwork, GenericVat and ConnectionImpl. Vats/Connect
--     makes and destroys connections, Vats/Traffic has their messages, blocks and ends,
--     Vats/ThirdParty introductions and exchanges, Vats/Events any sequence of all these.
--   MultiVats: ffi/rpc_bridge_runtime.cpp, class RuntimeLoop: the peers of that network that Lean holds.
--     MultiVats/Connections has what Lean asks of the network and of the connection between two peers,
--     MultiVats/SturdyRefs the sturdy refs and the restorers, MultiVats/Others what may happen while a
--     sturdy ref stays published.
--   Completions: ffi/rpc_bridge_common.cpp and rpc_bridge_common.h, the structs *Completion and the
--     functions complete*; Completions/Deferred is DeferredLeanTaskState.
--   Naming: plugin/capnpc-lean4.c++, identifiers, module names, output paths and string literals;
--     Naming/TypeNames has buildNameTable and qualifiedTypeName.
--   Prelude: what the other modules share: hash tables as association lists (Prelude/Table), the
--     search for a fresh id (Prelude/Alloc), methods that change a state and may throw (Prelude/Exec).
--   Examples: the theorems at concrete inputs.
--
-- How the code is read: an `unordered_map` or a set is a list with one entry for each key; a method of
-- a class is a function of the members that it uses to an outcome and the members afterwards, so that
-- what was written before an exception stays written. The methods run on one worker thread, or under
-- one mutex, from start to end; so a call is one step, and an interleaving a list of calls. Numbers are
-- natural numbers, with the wrap-around of a counter or a count written as `%`. Strings are the codes
-- of their characters. KJ's promises and Cap'n Proto's capabilities and peers are parameters (`Kj`,
-- `Rpc`); the calls of KJ's fulfillers are a log.
--
-- The search for a fresh id loops while the id is taken. Its model has fuel for one round more than
-- there are taken ids, which is enough where an id is free, as Prelude/Alloc shows; `loops` is the
-- outcome of a call that finds none.
--
-- Not modelled: threads and sockets; most kinds of request, which the queue treats like those shown;
-- HTTP and WebSocket I/O; the calls themselves, which Cap'n Proto makes; the completions that go
-- through a promise of Lean; the text of the generated declarations; the FFI functions that unpack
-- arguments; the Lean side.

pub mod Completions
pub mod Examples
pub mod KjPromises
pub mod MultiVats
pub mod Naming
pub mod PayloadRef
pub mod Prelude
pub mod Requests
pub mod Targets
pub mod UnitPromises
pub mod Vats
pub mod Wire
