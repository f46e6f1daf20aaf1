-- ===== src/Lib.antt =====
-- WebTSan: a data-race detector in the style of ThreadSanitizer for code that shares memory between
-- the workers of a web page. This library models the detector, which lies in
-- patches/chromium/new-files/third_party/blink/renderer/core/tsan, and proves what it detects and
-- what it does not. It also models the parts of V8 that the detector is told of: the list of
-- waiters behind Atomics.wait and Atomics.notify, the bulk operations and the other functions that
-- WebAssembly code calls in C++, and the backing stores of buffers.
--
-- The program. A thread of a page is a slot below 64 with a vector clock. Each byte of a shared
-- buffer has two shadow cells, which remember the last access of a thread in an even slot and in an
-- odd one. The hooks (web_tsan_hooks.h) are called by V8 and Blink on each memory access and each
-- synchronisation; while the detector is enabled they call the singleton `WebTSan` (web_tsan.h,
-- web_tsan.cc). An access is checked against the cells of its bytes: a cell of another thread whose
-- epoch the clock of the caller does not know of, where one of the two accesses writes, is a race.
-- It is reported once for a site, by a log line, a message that V8 picks up, and a callback.
--
-- The files.
-- - Prelude: the library names that the files share, Boolean tests, tables, and `Outcome`, what a
--   call returns: `undefined` is an index beyond an array, and `check_failed` a failed CHECK.
-- - Clock: `VClock` of web_tsan.h.
-- - Shadow: `ShadowCell` and `ShadowBuffer`, with `RecordAccess` and `ClearRange` of web_tsan.cc.
--   Shadow/Races says when an access conflicts with a cell, Shadow/Loop is about `RecordAccess`,
--   Shadow/Clear about `ClearRange`.
-- - Report: `RaceReport::ToString`.
-- - Detector: the members of `WebTSan`, and the methods on single members.
-- - Threads, Sync, Edges, Buffers: the methods of `WebTSan` on threads, on addresses and mutexes,
--   on messages and on shadow buffers. `send_edge` is `HappensBefore` and `receive_edge` is
--   `HappensAfter`; the other names are those of the source in small letters.
-- - Caller, MemoryAccess: the thread-local variables, and `MemoryAccess` with its reports.
-- - Hooks: the inline functions of web_tsan_hooks.h.
-- - Callbacks: the table that V8 calls (patches/v8/new-files/src/runtime/runtime-tsan.h) with the
--   functions of web_tsan_init.cc, and `InitializeWebTSan`.
-- - Console, Globals: `FlushPendingRaceToConsole` and the functions that a page can call, of
--   web_tsan_init.cc. What V8 makes of an argument, and what the page has for a console, are
--   records.
-- - Runtime: the runtime functions of patches/v8/new-files/src/runtime/runtime-tsan.cc, on the
--   flag, the table of callbacks and the page as parameters.
-- - Trace: the part for WebTSan of `Runtime_WasmTraceMemory` in
--   patches/v8/modified-files/src/runtime/runtime-test-wasm.cc.
-- - Workers: the calls that Blink makes for workers and messages
--   (patches/chromium/modified-files/third_party/blink/renderer/core), and V8 for a backing store.
-- - Futex: the list of waiters of patches/v8/modified-files/src/execution/futex-emulation.cc. A
--   node is a number, and the links of the nodes, the map from locations to lists and the promises
--   of an isolate are tables. Futex/Maps is the map, Futex/Async what is done for asynchronous
--   waiters, Futex/Deinit the removal of an isolate, Futex/Wake `Wake`, Futex/Wait and
--   Futex/WaitAsync the two kinds of waiting, Futex/Verify the check of debug builds. Futex/Links
--   and Futex/Listed are about the links: lists of nodes for which the links stand.
-- - ExternalRefs: functions of patches/v8/modified-files/src/wasm/wasm-external-refs.cc on a memory
--   of bytes. ExternalRefs/Bytes reads and writes, Integers and Floats are the conversions and
--   divisions, Simd the functions on vectors, Arrays fills and copies arrays, CentralStack switches
--   to the central stack and back, StackSwitching switches between the other stacks and searches
--   for handlers of effects; what V8 does at a switch is a parameter.
-- - BackingStore: patches/v8/modified-files/src/objects/backing-store.cc. BackingStore/Pages
--   allocates pages and copies a memory, BackingStore/Grow and BackingStore/Resize grow and resize
--   in place, BackingStore/Registry is the global registry with the isolates that share a memory,
--   BackingStore/Destroy the destructor. What the system answers is a parameter.
-- - Bulk: memory.copy, memory.fill, memory.init and data.drop (Bulk/Segments) of
--   patches/v8/modified-files/src/wasm/wasm-external-refs.cc, with the samples that they record.
--   The bounds check of V8 is a parameter.
-- - Epochs, and the modules of that name: the invariant that nobody knows of an epoch that its
--   thread has not reached.
-- - Program: the calls of the singleton as a data type, a step function, and the states that a run
--   reaches.
-- - Detection: what synchronisation makes of the accesses that follow it.
-- - Examples, TestData: instances of the theorems on a detector with two live threads.
--
-- The model. A method takes the state and returns the new one. The counters wrap at the width that
-- they have in the source, 64 bits for epochs, edge ids and offsets. The hash maps are functions
-- into `Option`; the arrays are functions, of which the indices below the length count. A call is
-- one step: the source takes a lock around each group of lines that uses shared state, and the
-- model runs a call from its start to its end. `MemoryAccess` takes three locks one after the
-- other, so that other calls can come between; this is not modelled. The pages of a shadow buffer
-- are made on demand, as in the source. `ClearRange` has as much fuel as the range has bytes and
-- one more, which is enough since each round moves to the next page or to the end. The loops over
-- threads, cells and bytes are recursion on the rounds left. A walk along the nodes of the wait
-- list has fuel; one that is out of fuel is `undefined`; the length of the list and one more is
-- enough, since each round goes on to the next node. A walk along the parents of a stack needs as
-- much as there are stacks on the way. `RemoveNode` at a location without a list, and the use of an
-- asynchronous state that is null, are `undefined` too. The rounds of a loop that waits, and of a
-- loop that compares and exchanges, are an explicit list of what the environment answers; when it
-- ends the loop has not. An array whose element is set by doubling needs fewer than 32 rounds,
-- since its bytes are fewer than 2^30 and one element is set before the first.
--
-- What is not modelled. The printed trace of memory accesses, and the other changed lines of V8 and
-- Chromium that call the hooks. A conversion of an argument by V8 runs no code of the page. Memory
-- allocation does not fail. The callback is a flag that tells whether one is set, and a call of it
-- is an event. Of the wait list: the tasks that V8 posts beyond their order, and the list class of
-- managed waiters, whose header is not part of the repository; the template is modelled on its
-- methods as parameters. Of the functions for WebAssembly: the reversal of bytes on big-endian
-- machines, the branches for MSVC, Windows and AIX, write barriers, the conversion of strings, and
-- the encoding of handler tables. The arithmetic of floating-point numbers is a parameter, and so
-- is the heap that moves references. Of the backing stores: the counters, the page allocator of the
-- sandbox, machines other than those of 64 bits that are not an ARM, and the shared pointers: a
-- store that is gone is none. DCHECKs are left out everywhere. The compiler's tables (Liftoff, the
-- flags, the builtins) and the start-up of Blink and of the renderer are V8's and Chromium's own.
pub mod Prelude
pub mod Clock
pub mod Shadow
pub mod Report
pub mod Detector
pub mod Epochs
pub mod Threads
pub mod Sync
pub mod Edges
pub mod BackingStore
pub mod Buffers
pub mod Caller
pub mod MemoryAccess
pub mod Hooks
pub mod Callbacks
pub mod Console
pub mod ExternalRefs
pub mod Futex
pub mod Globals
pub mod Runtime
pub mod Bulk
pub mod Trace
pub mod Workers
pub mod TestData
pub mod Program
pub mod Detection
pub mod Examples
