-- ===== src/Host/Prover.antt =====
-- crates/host/src/pipeline/proof/mod.rs and compressed.rs: the store of the prepared prover, and a
-- compressed proof of a batch. Building a prover, proving and verifying are parameters; a prepared prover
-- is its backend and the `hash_u32` of its verifying key.
use zkpow.Prelude.{ℕ, List, Option, none, some, Bool, true, false, ◌&&◌, ◌==◌}
use zkpow.Host.Settings.{ProverBackend, mock, cpu, cuda}
use zkpow.Host.Attempt.{Attempt, succeed, ◌>>=◌}
use zkpow.Host.Batch.{SavedProof, PreparedBatch}
use zkpow.Host.Execute.{Sp1Stdin, execute_batch_with_prover, verify_public_values}

pub record PreparedProverConfig : Type 0 where
  pub backend : ProverBackend
  pub cuda_device_id : Option ℕ

pub record PreparedProver : Type 0 where
  pub kind : ProverBackend
  pub verifying_key : List ℕ

-- The content of `PREPARED_PROVER`.
abbrev pub ProverStore : Type 0
ProverStore = Option (PreparedProverConfig × PreparedProver)

-- The derived `PartialEq`.
unfoldable pub eq_backend : ProverBackend → ProverBackend → Bool
eq_backend mock mock = true
eq_backend cpu cpu = true
eq_backend cuda cuda = true
eq_backend _ _ = false

unfoldable pub eq_device : Option ℕ → Option ℕ → Bool
eq_device none none = true
eq_device (some i) (some j) = i == j
eq_device _ _ = false

unfoldable pub eq_config : PreparedProverConfig → PreparedProverConfig → Bool
unfolding eq_backend eq_device
eq_config a b = eq_backend a.backend b.backend && eq_device a.cuda_device_id b.cuda_device_id

module _ (set_up : PreparedProverConfig → Attempt (List ℕ)) where
  -- Build a prover, and keep it.
  unfoldable pub build_prover : PreparedProverConfig → Attempt (PreparedProver × ProverStore)
  build_prover desired = do
    verifying_key ← set_up desired
    let prepared : PreparedProver = record {
      kind = desired.backend;
      verifying_key = verifying_key;
    } in
        succeed (prepared, some (desired, prepared))

  unfoldable pub get_prepared_prover :
      ProverStore → PreparedProverConfig → Attempt (PreparedProver × ProverStore)
  get_prepared_prover none desired = build_prover desired
  get_prepared_prover (some (cached_cfg, prepared)) desired = elim (eq_config cached_cfg desired) [
    | true ↦ succeed (prepared, some (cached_cfg, prepared))
    | false ↦ build_prover desired
  ]

module _ (digest compute_pv_digest : List ℕ → List ℕ) (execute : Sp1Stdin → Attempt (List ℕ))
    (prove : Sp1Stdin → Attempt SavedProof)
    (verify : SavedProof → List ℕ → Attempt (Unit {0})) where
  unfoldable pub generate_compressed_proof : List ℕ → PreparedBatch → Attempt SavedProof
  generate_compressed_proof vk batch = do
    executed ← execute_batch_with_prover digest compute_pv_digest execute vk batch
    compressed_proof ← prove executed.stdin
    same_values ← verify_public_values compressed_proof.public_values executed.expected_pv
    verified ← verify compressed_proof vk
    succeed compressed_proof
