-- ===== src/Lib.antt =====
-- HMF-Audit: a model of the audit service's hierarchical Merkle forest and of the proofs over it.
--
-- The forest (internal/hmf) hashes log records into four layers of Merkle trees: a segment tree is
-- filled leaf by leaf and sealed, its root is committed and appended to a shard tree, a shard's
-- committed root is a leaf of its region tree, and a region's committed root one of the global
-- tree. The proof protocol (internal/hpp) plans which nodes of each tree prove some leaves
-- (planner.go) and folds leaves and nodes back up to the raw root of a tree (verifier.go).
--
-- Prelude has the names of the libraries, int64 as ℤ, Go's (value, error) pair as Result and maps
-- as association lists. Crypto models internal/domain/hash.go and the big-endian encodings;
-- SHA-256 is a parameter, the instance argument Sha256, of which only the length of its results is
-- known. Where a result rests on collision resistance it says so by its first alternative,
-- Collision: two byte strings that differ and have the same hash.
--
-- Hmf/Node is internal/hmf/merkle_tree.go, Hmf/Commitment commitment.go, Hmf/Segment
-- segment_tree.go (Append, buildInternalNode, Seal), Hmf/Shard shard_tree.go (mergeFrontier,
-- materializeRootPath, Append), Hmf/Region region_tree.go and Hmf/Global global_tree.go
-- (constructor, Build, recomputePath and the update), whose common loops over the level arrays are
-- in Hmf/Levels. Hmf/Forest is AppendSealedSegment of hmf.go, over all of these. Hmf/Merkle is the
-- reference they are all held to: levels are paired up from the left, and an odd last node is
-- promoted unchanged. Hmf/Agreement compares the shard tree with the segment tree. Hpp/Types is
-- the data of internal/hpp/plan.go, Hpp/Plan planTree of planner.go, Hpp/Rebuild
-- reconstructTreeRoot of verifier.go, Hpp/Verify its checks of one tree plan, one parent link and
-- the trusted root, and Hpp/Grouping normalizeAddresses of grouping.go. Localization is the height at
-- which the walk of internal/localization/analyze.go starts, on int64 with its wrap-around.
--
-- Checkpoint is internal/checkpoint: Types and Commitment are types.go and commitment.go, Validate
-- the checks of service.go, Finalize its Finalize and anchorAndPublish with readCurrent of
-- reader.go, MockAnchor mock_anchor.go. What they call, the repository, the state source, the
-- anchor and the clock, is the record Ports: functions on a world, of which nothing is assumed.
-- Finalize is modelled while its lock is held, so no other run of the same service interleaves.
--
-- Locator is the authenticated log locator, internal/all: Types is locator_types.go, Key and Encode
-- locator_key.go, Page locator_page.go, Reader and Codec page_codec.go, and of locator_range.go
-- Bounds is LocatorQuery.Bounds, Proof ReconstructLocatorRoot and VerifyLocatorPathProofs, Entries
-- and Range the rest of what an auditor checks of a range result, up to VerifyLocatorQueryResult.
-- Locator/Tree is the specification these checks are held to: a tree of pages whose leaves are
-- linked, with distinct page IDs and ascending keys, and the relation of such a tree to its root
-- hash. An instant is its nanoseconds since 1970, an unbounded integer, of which UnixNano keeps 64
-- bits; the theorems about bytes ask for instants in the range of UnixNano.
--
-- Audit is internal/services/audit.go, the requests of an auditor: ResolveLocator, BuildHMFProof and
-- LocalizeTamper, over any checkpoint reader, locator, proof and localization service. Prelude/Action
-- is the sequence of calls on a world that stops at the first error, which Audit and Checkpoint use.
--
-- Hm is internal/hm/manager.go: a shard's segment is opened, numbered and closed, which seals it
-- and adds its root to the forest of Hmf.
--
-- A method that changes a tree returns the new tree; a failed one leaves its caller with the old
-- one. The forest and the world of Finalize come back after an error too. Levels, indexes and
-- counts that the code itself makes are natural numbers; int64 wrap-around of these would need 2 ^
-- 63 leaves and is not modelled. The leaf count of a plan can come from a request, so the width of
-- the loops in Hpp/Plan and Hpp/Rebuild wraps around at the greatest int64 as it does in the code
-- (next_width). A loop over levels runs on fuel: bit_length on the number itself,
-- the build of a segment on one more than its leaves, planning and reconstruction on the number of
-- leaves. Each halves its number in every round, so that is enough.
--
-- Not modelled: the databases, HTTP and start-up, which only move data; NewHMF of hmf.go; the
-- planning of a whole hierarchy (Planner.Plan) and the checks of a whole proof (evaluateHMFProof),
-- of which the parts for one tree are here; the lock of Finalize; insertion into the locator tree
-- and the reading of pages for a range (ResolveRangeWithReader), whose result is checked by what is
-- here before it is returned; the walk of localization over two proofs, which stands on what is
-- here; and the workers of the shards (internal/hm/segment_worker.go), the channels they are sent
-- logs through, and NewManager.
pub mod Prelude
pub mod Crypto
pub mod Hmf
pub mod Hpp
pub mod Checkpoint
pub mod Locator
pub mod Audit
pub mod Localization
pub mod Hm
