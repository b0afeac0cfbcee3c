-- ===== src/Lib.antt =====
-- MemSentry: a library that replaces malloc and free, puts a header and a red zone around each
-- block, tracks the live blocks, and reports leaks, corruption and double frees.
--
-- How the parts interact: the hooks (src/allocator_hooks.cpp) call the Manager (src/memsentry.cpp).
-- The Manager asks the recursion guard and the sampler whether to track an allocation, lays the
-- block out in memory (core/header.hpp), counts it (types.hpp) and records it in the sharded tracker
-- (core/sharded_tracker.hpp). A free erases the record, checks the block, and returns it to the
-- system, or reports it. Reports read the tracker, through the suppression rules, which resolve
-- stack traces by a cache of symbols.
--
-- Which file models what (headers are under include/memsentry/):
--   Types, Memory      types.hpp, config.hpp; the address space as a function from addresses to bytes
--   Block              core/header.hpp: calculate_total_size, init_block, get_header_from_user_ptr,
--                      verify_canary, poison_block; children: layout, red zone, header, liveness
--   Tracker            core/sharded_tracker.hpp: insert, erase, find, snapshot_all, size, clear
--   Stats              types.hpp: MemoryStats; Stats.Race has its exchange loop and
--                      Stats.Interleaved its other counters with threads
--   Guard, ScopeTag    core/recursion_guard.hpp, profiler/scope_tag.hpp
--   Sampling           src/memsentry.cpp: the random numbers and the sampling part of allocate
--   Histogram          profiler/histogram.hpp, profiler/fragmentation.hpp
--   Snapshot           profiler/snapshot.hpp, src/snapshot.cpp
--   StackTrace         src/stacktrace.cpp: capture, resolve_frame, resolve
--   Suppression        core/suppression_engine.hpp
--   Manager            src/memsentry.cpp: State (members, thread-locals, heap), Allocate, Free,
--                      Realloc, Lifecycle, Leaks, Export; the other children prove what they do, and
--                      Manager.History has runs of calls over an allocator with its contract
--   Hooks              src/allocator_hooks.cpp and track_alloc, track_free, track_realloc
--   Escape, Flamegraph src/reporter.cpp: json_escape; profiler/flamegraph.hpp: escape_xml, build_tree,
--                      generate_folded_stacks, generate_svg
--   Printing, Json     what an ostream writes of numbers; JSON values and a reader of JSON texts
--   Reporter           src/reporter.cpp: ConsoleReporter, JsonReporter, HtmlReporter; Manager.Export and
--                      Manager.Reports have dump_leaks, export_json, export_html and
--                      get_flamegraph_svg
--   Markup             a scanner of the tags of the SVG and of the HTML page
--   Base               shared names, Boolean tests, lists, integers, bits, dictionaries
--   Tests              the theorems at concrete inputs
--
-- How state corresponds to the code: `Manager.State.State` has the members of the Manager, the
-- thread-locals of one thread, the bytes of memory, the calls of the system's allocator, and the
-- alerts and watchdog calls that were made. An operation takes the state before to its result and the
-- state after. `Platform` is what lies below: malloc and realloc as functions of the calls before,
-- what the system does to memory, backtrace, the clock, dladdr, floating point, and the addresses of
-- the text literals. The log of calls has those that the Manager makes for its clients' blocks. It
-- leaves out what the library allocates for itself under the guard, such as the nodes of the
-- tracker's maps and the vectors and strings of the reports: those calls go straight to the system,
-- and nothing tracks them. Pointers are native numbers, 0 is null, and 64-bit arithmetic wraps where
-- the code's does. Loops over a red zone run on as many rounds as it has bytes: each round moves on
-- by 8, so they end before the rounds do.
--
-- An operation of the tracker holds its shard's mutex and is one step. The operations of the Manager
-- run without another thread between their steps; the counters of the statistics and their exchange
-- loop are also modelled with threads interleaved.
--
-- Not modelled: how doubles are computed and printed (parameters), file output but for the text that
-- is written, the Windows branches but for the guard, the overflow of the POSIX guard's int at 2^31
-- nested guards, the library's own allocations, crash handlers, the functions that only call the
-- Manager's of the same name, and negative ints out of a capture depth of 2^31 or more.
pub mod Base
pub mod Memory
pub mod Types
pub mod Block
pub mod Tracker
pub mod Stats
pub mod Guard
pub mod ScopeTag
pub mod Sampling
pub mod Histogram
pub mod Snapshot
pub mod StackTrace
pub mod Suppression
pub mod Manager
pub mod Markup
pub mod Printing
pub mod Json
pub mod Reporter
pub mod Hooks
pub mod Escape
pub mod Flamegraph
pub mod Tests
