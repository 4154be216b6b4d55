-- ===== src/Host/Session.antt =====
-- crates/host/src/pipeline/mod.rs: a session runs one batch after the other, each from where the one
-- before it ended. The disk, the provers and the measuring of memory are parameters, gathered in
-- `System`; the paths that `PathBuf::join` and `format!` make are as well.
pub mod Batches
pub mod Adjacent
use zkpow.Prelude.{
  ℕ, zero, suc, ◌+◌, ◌-◌, ◌*◌, List, [], ◌∷◌, ◌++◌, Option, none, some, Result, ok, err, Outcome,
  returned, panicked, Bool, true, false, if◌then◌else◌,
}
use zkpow.Memory.{StageSample, StageHistory, StageCountMismatch, new_history, push_iteration}
use zkpow.Host.Settings.{
  ProverBackend, mock, cpu, cuda, ProofGenerationConfig, PipelineMode, only_execute,
  prove_compressed, prove_compressed_and_groth16, mode, parse_genesis_hash,
}
use zkpow.Host.Attempt.{
  Attempt, BoxError, succeed, fail, ◌>>=◌, is_header_exhaustion_error, invalid_setting,
  row_mismatch,
}
use zkpow.Host.Db.{Db}
use zkpow.Host.Batch.{SavedProof, PreparedBatch}
use zkpow.Host.Prepare.{prepare_batch}
use zkpow.Host.Execute.{
  Sp1Stdin, UnprovenBatchInput, execute_batch_with_prover, execute_batch_without_proof,
}
use zkpow.Host.Prover.{
  PreparedProverConfig, PreparedProver, ProverStore, get_prepared_prover, generate_compressed_proof,
}

-- What the code calls of other crates. `D` is the state of the disk.
pub record System (D : Type 0) : Type 0 where
  pub digest : List ℕ → List ℕ
  pub compute_pv_digest : List ℕ → List ℕ
  pub load : D → List ℕ → Result BoxError SavedProof
  pub save : D → List ℕ → SavedProof → Result BoxError D
  pub create_dir_all : D → List ℕ → Result BoxError D
  pub set_up : PreparedProverConfig → Attempt (List ℕ)
  pub execute : Sp1Stdin → Attempt (List ℕ)
  pub prove : Sp1Stdin → Attempt SavedProof
  pub verify : SavedProof → List ℕ → Attempt (Unit {0})
  pub generate_groth16_proof : SavedProof → List ℕ → Attempt SavedProof
  pub compressed_file : List ℕ → ℕ → ℕ → List ℕ
  pub groth16_file : List ℕ → ℕ → ℕ → List ℕ
  pub log_point : ℕ → StageSample

pub record ProofArtifacts : Type 0 where
  pub compressed_path : Option (List ℕ)
  pub groth16_path : Option (List ℕ)
  pub compressed_proof : Option SavedProof
  pub groth16_proof : Option SavedProof
  pub first_new_height : ℕ
  pub end_height : ℕ

-- What a batch may change: the disk, and the store of the prover.
pub record World (D : Type 0) : Type 0 where
  pub disk : D
  pub prepared : ProverStore

-- `ProofArtifacts::execution_only`
unfoldable pub execution_only : PreparedBatch → ProofArtifacts
execution_only batch = record {
  compressed_path = none;
  groth16_path = none;
  compressed_proof = none;
  groth16_proof = none;
  first_new_height = batch.first_new_height;
  end_height = batch.end_height;
}

-- `?` on a call that gives a plain result.
abbrev pub question {ℓ} : {A : Type ℓ} → Result BoxError A → Attempt A
question r = returned r

-- `parse_genesis_hash()?`
unfoldable pub genesis_hash_or_fail : Attempt (List ℕ)
genesis_hash_or_fail = elim parse_genesis_hash [
  | none ↦ fail invalid_setting
  | some hash ↦ succeed hash
]

module _ {D : Type 0} (system : System D) (db : Db) where
  -- `prepare_batch` with the settings of a batch.
  unfoldable pub prepared_for : ProofGenerationConfig → D → Attempt PreparedBatch
  prepared_for config disk = do
    genesis_hash ← genesis_hash_or_fail
    prepare_batch system.digest (system.load disk) db genesis_hash config.prev_proof_path
        config.trusted_start_height config.num_headers

  -- Wrap and save the proof, if the mode asks for it.
  unfoldable pub wrap_proof :
      ProofGenerationConfig
      → PreparedBatch
      → SavedProof
      → List ℕ
      → D
      → Attempt (Option (List ℕ) × Option SavedProof × D)
  wrap_proof config batch proof vk disk = elim (mode config) [
    | prove_compressed_and_groth16 ↦
        let path = system.groth16_file config.output_dir batch.first_new_height batch.end_height in
        do
          groth16_proof ← system.generate_groth16_proof proof vk
          disk' ← question (system.save disk path groth16_proof)
          succeed (some path, some groth16_proof, disk')
    | _ ↦ succeed (none, none, disk)
  ]

  -- The part of `run_with_prover` that proves.
  unfoldable pub prove_batch :
      ProofGenerationConfig → PreparedBatch → List ℕ → World D → Attempt (ProofArtifacts × World D)
  prove_batch config batch vk w =
      let path = system.compressed_file config.output_dir batch.first_new_height batch.end_height in
      do
        proof ←
            generate_compressed_proof system.digest system.compute_pv_digest system.execute
              system.prove system.verify vk batch
        disk ← question (system.create_dir_all w.disk config.output_dir)
        disk' ← question (system.save disk path proof)
        wrapped ← wrap_proof config batch proof vk disk'
        succeed (
          record {
            compressed_path = some path;
            groth16_path = wrapped.0;
            compressed_proof = some proof;
            groth16_proof = wrapped.1;
            first_new_height = batch.first_new_height;
            end_height = batch.end_height;
          },
          record w { disk = wrapped.2 },
        )

  unfoldable pub run_with_prover :
      ProofGenerationConfig → List ℕ → World D → Attempt (ProofArtifacts × World D)
  run_with_prover config vk w = do
    batch ← prepared_for config w.disk
    elim (mode config) [
      | only_execute ↦ do
        executed ←
            execute_batch_with_prover system.digest system.compute_pv_digest system.execute vk batch
        succeed (execution_only batch, w)
      | _ ↦ prove_batch config batch vk w
    ]

  -- With the prover of the settings, from the store if it is there.
  unfoldable pub run_prepared : ProofGenerationConfig → World D → Attempt (PreparedProver × World D)
  run_prepared config w = do
    (prepared, store) ←
        get_prepared_prover system.set_up w.prepared
          (record { backend = config.prover_backend; cuda_device_id = config.cuda_device_id })
    succeed (prepared, record w { prepared = store })

  unfoldable pub execute_without_setup :
      ProofGenerationConfig → World D → Attempt (ProofArtifacts × World D)
  execute_without_setup config w = elim config.prev_proof_path [
    | some _ ↦ do
      (prepared, w') ← run_prepared config w
      elim prepared.kind [ mock ↦ run_with_prover config prepared.verifying_key w' | _ ↦ panicked ]
    | none ↦ do
      batch ← prepared_for config w.disk
      executed ←
          execute_batch_without_proof system.digest system.compute_pv_digest system.execute
            (record {
              current_state = batch.current_state;
              headers = batch.headers;
              median_hints = batch.median_hints;
              expected_state = batch.expected_state;
              expected_continuation_digest = batch.expected_continuation_digest;
            })
      succeed (execution_only batch, w)
  ]

  unfoldable pub run_with_setup :
      ProofGenerationConfig → World D → Attempt (ProofArtifacts × World D)
  run_with_setup config w = do
    (prepared, w') ← run_prepared config w
    run_with_prover config prepared.verifying_key w'

  -- `run_single_batch`, which logs around `generate_and_save_proofs`.
  unfoldable pub generate_and_save_proofs :
      ProofGenerationConfig → World D → Attempt (ProofArtifacts × World D)
  generate_and_save_proofs config w = elim (mode config) [
    | only_execute ↦ elim config.prover_backend [
      | mock ↦ execute_without_setup config w
      | _ ↦ run_with_setup config w
    ]
    | _ ↦ run_with_setup config w
  ]

-- The variables of `run_batch_session`; `completed` are the batches whose summary is logged, the latest
-- one first.
pub record Session (D : Type 0) : Type 0 where
  pub world : World D
  pub memory_history : StageHistory
  pub current_prev_proof : Option (List ℕ)
  pub trusted_start_height : Option ℕ
  pub batch_count : ℕ
  pub completed : List ProofArtifacts

-- The settings of the next batch.
unfoldable pub batch_settings :
    {D : Type 0} → ProofGenerationConfig → List ℕ → Session D → ProofGenerationConfig
batch_settings config out_dir st = record config {
  output_dir = out_dir;
  prev_proof_path = st.current_prev_proof;
  trusted_start_height = st.trusted_start_height;
}

-- `batch_count += 1;`, and `batch_count -= 1;` where the batch finds no headers.
unfoldable pub count_up : {D : Type 0} → Session D → Session D
count_up st = record st { batch_count = st.batch_count + 1 }

unfoldable pub count_down : {D : Type 0} → Session D → Session D
count_down st = record st { batch_count = st.batch_count - 1 }

module _ {D : Type 0} (system : System D) (db : Db) (config : ProofGenerationConfig)
    (out_dir : List ℕ) where
  -- The three samples of a batch, whose number counts from one.
  abbrev pub samples : ℕ → List StageSample
  samples n =
      system.log_point (3 * (n - 1))
      ∷ system.log_point (3 * (n - 1) + 1)
      ∷ system.log_point (3 * (n - 1) + 2)
      ∷ []

  -- What the loop does with the artifacts of a batch.
  unfoldable pub after_batch :
      Session D → ProofArtifacts → World D → Result StageCountMismatch (Session D)
  after_batch st artifacts w = elim (push_iteration st.memory_history (samples st.batch_count)) [
    | err e ↦ err e
    | ok history ↦ ok (record {
      world = w;
      memory_history = history;
      current_prev_proof = if config.execute_only then none else artifacts.compressed_path;
      trusted_start_height = if config.execute_only then some artifacts.end_height else none;
      batch_count = st.batch_count;
      completed = artifacts ∷ st.completed;
    })
  ]

  -- What the loop does after a batch that is counted already.
  unfoldable pub end_batch :
      Session D → Attempt (ProofArtifacts × World D) → Attempt (Bool × Session D)
  end_batch st panicked = panicked
  end_batch st (returned (err e)) = elim (is_header_exhaustion_error e) [
    | true ↦ succeed (false, count_down st)
    | false ↦ fail e
  ]
  end_batch st (returned (ok (artifacts, w))) = elim (after_batch st artifacts w) [
    | err e ↦ fail row_mismatch
    | ok st' ↦ succeed (true, st')
  ]

  -- One batch: on, or the session ends well where no headers are left; its disk and its store are not
  -- looked at again then.
  unfoldable pub run_next : Session D → Attempt (Bool × Session D)
  run_next st =
      let started = count_up st in
      elim (system.create_dir_all started.world.disk out_dir) [
        | err e ↦ fail e
        | ok disk ↦ end_batch started (
            generate_and_save_proofs system db (batch_settings config out_dir started)
              (record { disk = disk; prepared = started.world.prepared }))
      ]

  -- The loop: the first number is how many batches are left, `max_batches - batch_count`.
  unfoldable pub session_loop : ℕ → Session D → Attempt (Session D)
  session_loop zero st = succeed st
  session_loop (suc left) st = elim (run_next st) [
    | panicked ↦ panicked
    | returned (err e) ↦ fail e
    | returned (ok (false, st')) ↦ succeed st'
    | returned (ok (true, st')) ↦ session_loop left st'
  ]

  -- `run_batch_session` from where the database is open.
  unfoldable pub run_batch_session : World D → List (List ℕ) → Attempt (Session D)
  run_batch_session w labels = session_loop config.batch_count (record {
    world = w;
    memory_history = new_history labels;
    current_prev_proof = config.prev_proof_path;
    trusted_start_height = none;
    batch_count = 0;
    completed = [];
  })
