-- ===== src/Lib.antt =====
-- golintmu: a linter that infers which mutex guards which struct field of a Go package, and reports
-- accesses and calls that do not respect it.
--
-- The analyzer (pkg/analyzer) works on the SSA form of a package, in phases over one
-- `passContext`. Phase 1 walks each function block by block with the set of held locks
-- (`lockState`), and records field accesses with the locks of the same object (`observation`),
-- call sites with the locks held there, direct acquisitions and releases, and edges of the lock
-- order graph; it reports double locks, mismatched unlocks and merge points whose branches
-- disagree. Phase 2 infers a guard for each field by a vote of its writes, or of all observations
-- if no write holds a mutex. Then requirements are derived from accesses without the guard and
-- passed on to callers until nothing changes, and the functions reachable from concurrent
-- entrypoints are computed.
--
-- Files:
--   Base             lists, maps as association lists, Boolean tests, the measure of loops that mark,
--                    and Base/Fixpoint for loops of the form `for changed && i < limit`
--   Types, Ssa       what go/types and go/ssa hand to the analyzer: the parameter `Program`
--   LockState        pkg/analyzer/lockstate.go. Order compares states, Merge is on `intersect`, Diff
--                    on `diff`
--   Resolver         pkg/analyzer/resolver.go. Phi is on what unwrapping keeps, Fuel on its loops
--   Pass, FuncFacts  the records of golintmu.go, interprocedural.go and lockorder.go, and
--                    `getOrCreateFuncFacts`
--   Report           the part of pkg/analyzer/reporter.go that the walk calls, and `isSuppressed` of
--                    annotations.go. Paths is `filepath.Base`, Adds what phases have in common that
--                    only report
--   LockOrder        pkg/analyzer/lockorder.go. Search is `detectCycles` with `extractCycle` and
--                    `deduplicateCycles`, Cycles is on what it answers, Ends on its loops
--   Walk             pkg/analyzer/ssawalk.go: Locks (calls, deferred calls, returns), Fields (stores
--                    and reads), Instrs (one block), Blocks (`walkBlock`, `walkFunction`), Observed
--                    (what the walk observes)
--   Inference        pkg/analyzer/inference.go. Count and Best are the two loops of the vote, Guard
--                    `inferFieldGuard`, Store `inferGuards`
--   Concurrency      pkg/analyzer/concurrency.go
--   Interproc        pkg/analyzer/interprocedural.go. Requires and Least are on the first loop of
--                    `propagateRequirements`
--   Violations       `checkViolations` of reporter.go. Steps is on one access, Reports on all
--   Deadlocks        `detectAndReportLockOrderCycles` of reporter.go
--   Unlocks          `reportDeferredUnlockOfUnlocked` of reporter.go
--   Calls            `checkInterproceduralViolations` of reporter.go. Reported is on which calls it
--                    reports, Origins and Reasons on the explanations of verbose mode
--   Leaks            `computeReturnsHolding` and `reportDeferredLockLeaks` of reporter.go. Counts,
--                    Positions and Holding are on the first, Leaked on the second
--   AcquireHelpers   `checkCallersOfAcquireHelpers` of reporter.go
--   Exported         `checkExportedGuardedFields` of reporter.go
--   Facts            pkg/analyzer/facts.go: references to mutex fields. Import and Export are
--                    `importFacts` and `exportFacts`; Refs is on references, Guards,
--                    Fetched and Callees on what an importing package gets
--   Directives       pkg/analyzer/annotations.go: `parseAnnotations`. Text is on the text of a
--                    comment, Suppressed on what the directives do
--   Run              `run` of pkg/analyzer/golintmu.go. Ends is on its end, Reports on what its last
--                    phases report together
--   Tests            a small program, and the theorems at inputs from it
--
-- State and operations: a function of the source is a function of the same name, in snake case, that
-- takes the `PassContext` and returns the new one; a method that changes the lock state returns the
-- new `LockState`. Values, functions, blocks, named types and positions, which Go compares by
-- identity, are numbers. A map is an association list, in the order of insertion, and a set a list
-- without repetition; the order in which Go goes through a map is not specified, and theorems about
-- a map that has distinct keys hold for each order. Diagnostics are values that name the format
-- string and its arguments.
--
-- Aliasing: on a block's first visit `entryStates` gets a copy of the state, on a later one the
-- very state that the block is walked with, so that what the instructions do to it shows in the
-- recorded entry state (`run_block`). The recursion can then be endless, where Go's stack
-- overflows, and a recorded entry state can hold a lock that no path arrives with: Tests/Graphs
-- has a function of each kind. Of the modules under Walk/Blocks, Sound (with Once and Visits) is
-- about functions in which all paths to a block arrive with the same locks, Ends (with Rounds and
-- Potential) about those in which no block that leaves a lock or a deferred unlock that there was
-- not before is on a loop, Total about programs whose functions are of these two kinds, and
-- Endless about loops of two blocks.
--
-- Fuel: `walkBlock` recurses through successors; one more than (number of blocks) × (2 + 2 ×
-- number of locks that the code can take or defer) levels are enough under either condition,
-- since each round of a block on a loop after its first then starts from a smaller state. The
-- loops of the resolver that mark visited values have one more than the number of values, the
-- search for concurrent functions one step for each entrypoint and call site. The search for
-- cycles colours a node with each recursive call, and has the number of nodes. `sort.Slice` is an
-- insertion sort, since Go leaves the order of equal names open. `formatSingleOrigin` has the
-- levels that `depth` leaves of `maxDepth`. `maxIterations` is the source's bound of 1000 rounds.
--
-- Not modelled: the text of messages and of facts, the flag, and the command. What go/ast tells
-- of comments and declarations is the list of `File`s that `run` takes. `run` is modelled from
-- where the SSA result is there; it ends with the state of the pass and the facts to export, and
-- those are `none` where `mutexFieldKeyToRef` would panic, at a type without a package. How
-- go/analysis stores facts is the parameter `Imported`. The parts of Go's type system that the
-- analyzer does not read are one constructor, `other_type`.
pub mod Base
pub mod Types
pub mod Ssa
pub mod LockState
pub mod Resolver
pub mod Pass
pub mod FuncFacts
pub mod Report
pub mod LockOrder
pub mod Walk
pub mod Inference
pub mod Concurrency
pub mod Interproc
pub mod Violations
pub mod Deadlocks
pub mod Unlocks
pub mod Calls
pub mod Leaks
pub mod Exported
pub mod AcquireHelpers
pub mod Facts
pub mod Directives
pub mod Run
pub mod Tests
