-- ===== src/Lib.antt =====
-- zkpow: recursive proofs of Bitcoin's header chain, modelled and verified.
--
-- A proof shows that a segment of headers is valid and how much work its chain has; the next proof
-- checks the proof before it and goes on from the state where that one ended. The code is in three
-- crates, which this library follows part by part. Paths are from the repository's root.
--
-- crates/core, shared by the host and the guest:
--   U256, with Arith, Order, Bytes: `u256` of types.rs and brand.rs, and the arithmetic of lib.rs
--     (`Add`, `Mul`, `sub_assign`, `increment_target`, `shl1_with_carry`) on four 64-bit limbs.
--   Work, with Bit, LongDivision: `work_from_target`.
--   Target, with Digits, Compact, Expand, RoundTrip, Retarget: `target_to_bits`,
--     `target_from_bits`, `check_proof_of_work`, `calculate_next_target_required`.
--   Bytes, with Le, Layout, Words, Chunks, Exact: `check_exact_len`, `check_aligned`,
--     `copy_from_bytes`, `slice_from_bytes`, and slices of arrays as the formats use them.
--   Header, Claim, State, PublicValues, Input, each with RoundTrip: the records and their formats,
--     of lib.rs, state.rs and input.rs.
--   Median, with Sorted: `median_time_past_hinted`, and the median of the tests of lib.rs.
--   Chain: `State::apply_headers` of state.rs. Chain.Eager is the loop without batched work,
--     Chain.Refine relates the two with Chain.Pending, on the work held back. Chain.Rules states the
--     rules as relations on states, Chain.Verdicts that the loop judges by them, Chain.Hints which
--     hints let it return, Chain.Complete that the rules leave no choice,
--     Chain.Batches runs one after the other, Chain.Typed what a state's fields fit, and
--     Chain.SameHash that a run asks of a hash only what it gives on typed headers.
-- crates/guest:
--   Sha256, with Reference: sha256.rs, and SHA-256 for any length.
--   Guest, with Checks, Digests, Soundness: main.rs.
-- crates/host, under Host:
--   Db, with Heights: util/db.rs, on the rows that its queries return. Hash: util/hash.rs.
--   Batch, with Replays, Along, Bisect: the search of pipeline/batch.rs for the first header after
--     which host and database differ, and util/simulate.rs. Prepare, with Prepared: `prepare_batch`.
--   Execute, with Accepted, Runs, Proved: pipeline/execution.rs, and `build_proof` and `build_stdin` of
--     pipeline/input.rs: what the host writes for the guest, and the guest's run on it.
--   Settings, with Config: the settings of pipeline/input.rs and their types in pipeline/mod.rs.
--   Prover: proof/mod.rs and proof/compressed.rs. Session, with Batches, Adjacent: the session of
--     pipeline/mod.rs. Attempt: calls that may fail or panic. Equal: the equality of claims.
-- crates/memory-usage: Memory, the samples of stages.rs, with Allocation, the counters of
--   allocation.rs: Interleaving for several threads, Allocator the allocator around another.
-- Prelude holds the shared names, tests, lists and lemmas on bits; Witnesses the test runs.
--
-- State is passed explicitly: a function that changes `self` returns the new state, and the early
-- return of `apply_headers` gives the state that the source leaves in `self` beside the error.
-- `Outcome` tells a return from a panic, and `Result` is the source's. Integers are natural
-- numbers with the wrap-around of the release profile written out; what a type guarantees of a
-- value (32 bytes, 32 bits) is a hypothesis where a theorem needs it. Byte strings are lists of
-- numbers; a buffer that is cast to a slice has an address, which decides on its alignment.
-- Every loop is structural recursion, on its list or on the number of rounds of the source. The long
-- division runs its 257 rounds. The binary search has as fuel the distance of its bounds, which each
-- round shortens: where the fuel is used up, the bounds are equal and the loop is over. A session has
-- as fuel the number of batches that are left to run.
--
-- Parameters are the system calls of the zero-knowledge machine: `extend` and `compress` of SHA-256,
-- and `verify_sp1_proof`, of which nothing is assumed. The hash of a header is a parameter of Chain,
-- with 32 bytes as its result where a theorem needs it; the guest's hash is shown to have them.
-- For the host they are the rows that the database's queries return (`Db`), the digests of sha2, and
-- SP1's hash, execution, proving and verification (`Machine`), the disk with its paths and the
-- provers that a session runs (`System`). Where a theorem needs it, its hypotheses say that the
-- digests are SHA-256 and that an execution gives what the guest commits to.
--
-- Not modelled: the text of errors and of tables; logging, samples of processes, durations and colours
-- (pipeline/diagnostics.rs, observability.rs, memory_monitor.rs); the checks of a CUDA installation
-- (cuda_env.rs); the wrapping of a proof in Groth16 and the building of provers, which are calls of
-- SP1; the command-line tools; process.rs, which reads a file of the system; and the cycle tracking
-- around calls, which has no effect on results.
pub mod Prelude
pub mod Bytes
pub mod U256
pub mod Work
pub mod Target
pub mod Header
pub mod Claim
pub mod State
pub mod Median
pub mod Chain
pub mod Sha256
pub mod PublicValues
pub mod Input
pub mod Guest
pub mod Memory
pub mod Host
pub mod Witnesses
