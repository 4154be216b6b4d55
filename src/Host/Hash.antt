-- ===== src/Host/Hash.antt =====
-- crates/host/src/util/hash.rs. The digest of the sha2 crate, and the hash of public values by SP1,
-- are parameters.
use zkpow.Prelude.{ℕ, List}
use zkpow.Header.{Header, header_to_bytes}
use zkpow.Claim.{ContinuationData, continuation_to_bytes}
use zkpow.State.{State, continuation_from_state}

module _ (digest : List ℕ → List ℕ) where
  unfoldable pub sha256d : List ℕ → List ℕ
  sha256d bytes = digest (digest bytes)

  -- `hash_header` of the host.
  unfoldable pub host_hash_header : Header → List ℕ
  host_hash_header header = sha256d (header_to_bytes header)

  unfoldable pub continuation_digest : ContinuationData → List ℕ
  continuation_digest continuation = digest (continuation_to_bytes continuation)

  unfoldable pub continuation_digest_from_state : State → List ℕ
  continuation_digest_from_state state = continuation_digest (continuation_from_state state)
