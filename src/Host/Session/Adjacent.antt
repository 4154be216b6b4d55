-- ===== src/Host/Session/Adjacent.antt =====
-- Where the batches of a session that only executes start.
use zkpow.Prelude.{
  ℕ, suc, ◌+◌, ◌%◌, ◌^◌, ◌≡◌, refl, ap, sym, subst, ◌∙◌, arith, List, [], ◌∷◌, Option, none, some,
  true,
}
use zkpow.State.{State}
use zkpow.Host.Attempt.{succeed, >>=-succeed, succeed-injective}
use zkpow.Host.Db.{Db}
use zkpow.Host.Db.Heights.{GenesisAtZero, state_from_db_at_height-height}
use zkpow.Host.Settings.{ProofGenerationConfig, ProverBackend, mock, cpu, cuda, mode, only_execute}
use zkpow.Host.Batch.{SavedProof, PreparedBatch}
use zkpow.Host.Prepare.{load_optional_proof}
use zkpow.Host.Prepare.Prepared.{
  Starts, at_genesis, at_trusted_height, after_proof, prepare_batch-Prepared,
}
use zkpow.Host.Batch.Replays.{some-injective}
use zkpow.Host.Execute.{execute_batch_with_prover, execute_batch_without_proof}
use zkpow.Host.Session.{
  System, World, ProofArtifacts, execution_only, Session, batch_settings, genesis_hash_or_fail,
  prepared_for, run_prepared, run_with_setup, run_with_prover, execute_without_setup,
  generate_and_save_proofs, run_batch_session,
}
use zkpow.Host.Session.Batches.{Ran, session_loop-keeps}

-- Each batch, the latest first, starts at the height after the end of the one before it.
abbrev pub Adjacent : List ProofArtifacts → Type 0
Adjacent [] = Unit {0}
Adjacent (b ∷ []) = Unit {0}
Adjacent (b ∷ a ∷ rest) = (b.first_new_height ≡ (a.end_height + 1) % 2 ^ 32) × Adjacent (a ∷ rest)

module _ {D : Type 0} (system : System D) (db : Db)
    (at_zero : (genesis_hash : List ℕ) → GenesisAtZero system.digest db genesis_hash) where
  trusted_lem :
      (disk : D) (genesis_hash : List ℕ) (height : ℕ) (start : Option ℕ) (proof : Option SavedProof)
      (s : State)
      → start ≡ some height
      → proof ≡ none
      → Starts system.digest (system.load disk) db genesis_hash start proof s
      → s.height ≡ height
  trusted_lem disk g height _ _ s p q (at_genesis e) = absurd (ground arith)
  trusted_lem disk g height _ _ s p q (at_trusted_height {height = k} e) =
      let same : k ≡ height = some-injective p in
      state_from_db_at_height-height system.digest db g k s (at_zero g) e ∙ same
  trusted_lem disk g height _ _ s p q (after_proof e c) = absurd (ground arith)

  -- A batch without a previous proof starts after the trusted height.
  prepared_first :
      (c : ProofGenerationConfig) (disk : D) (height : ℕ) (b : PreparedBatch)
      → c.prev_proof_path ≡ none
      → c.trusted_start_height ≡ some height
      → prepared_for system db c disk ≡ succeed b
      → b.first_new_height ≡ (height + 1) % 2 ^ 32
  unfolding prepared_for load_optional_proof
  prepared_first c disk height b p q e =
      let (g, _, e') = >>=-succeed genesis_hash_or_fail _ b e in
      let prepared =
        prepare_batch-Prepared system.digest (system.load disk) db g c.prev_proof_path
          c.trusted_start_height c.num_headers b e' in
      let nothing : none ≡ b.previous_proof =
        succeed-injective (rw (load_optional_proof, p) at prepared.previous) in
      let start =
        trusted_lem disk g height c.trusted_start_height b.previous_proof b.current_state q
          (sym nothing) prepared.starts in
      prepared.first ∙ ap (λ (n : ℕ). (n + 1) % 2 ^ 32) start

  -- What an execution was given.
  Executed : ProofGenerationConfig → ProofArtifacts → Type 0
  Executed c artifacts =
      (disk : D) × (b : PreparedBatch) × (prepared_for system db c disk ≡ succeed b)
      × (execution_only b ≡ artifacts)

  run_with_prover_lem :
      (c : ProofGenerationConfig) (vk : List ℕ) (w w' : World D) (artifacts : ProofArtifacts)
      → mode c ≡ only_execute
      → run_with_prover system db c vk w ≡ succeed (artifacts, w')
      → Executed c artifacts
  unfolding run_with_prover Executed
  run_with_prover_lem c vk w w' artifacts m e =
      let (b, p, e') = >>=-succeed (prepared_for system db c w.disk) _ (artifacts, w') e in
      let e1 = rw m at e' in
      let (x, _, e2) =
        >>=-succeed
          (execute_batch_with_prover system.digest system.compute_pv_digest system.execute vk b) _
          (artifacts, w') e1 in
      (w.disk, b, p, ap (λ (o : ProofArtifacts × World D). o.0) (succeed-injective e2))

  run_with_setup_lem :
      (c : ProofGenerationConfig) (w w' : World D) (artifacts : ProofArtifacts)
      → mode c ≡ only_execute
      → run_with_setup system db c w ≡ succeed (artifacts, w')
      → Executed c artifacts
  unfolding run_with_setup
  run_with_setup_lem c w w' artifacts m e =
      let (prepared, _, e') = >>=-succeed (run_prepared system db c w) _ (artifacts, w') e in
      run_with_prover_lem c prepared.0.verifying_key prepared.1 w' artifacts m e'

  without_setup_lem :
      (c : ProofGenerationConfig) (w w' : World D) (artifacts : ProofArtifacts)
      → c.prev_proof_path ≡ none
      → execute_without_setup system db c w ≡ succeed (artifacts, w')
      → Executed c artifacts
  unfolding execute_without_setup Executed
  without_setup_lem c w w' artifacts none_before e =
      let e1 = rw (none_before, execute_without_setup) at e in
      let (b, p, e2) = >>=-succeed (prepared_for system db c w.disk) _ (artifacts, w') e1 in
      let (x, _, e3) =
        >>=-succeed
          (execute_batch_without_proof system.digest system.compute_pv_digest system.execute
            (record {
              current_state = b.current_state;
              headers = b.headers;
              median_hints = b.median_hints;
              expected_state = b.expected_state;
              expected_continuation_digest = b.expected_continuation_digest;
            }))
          _ (artifacts, w') e2 in
      (w.disk, b, p, ap (λ (o : ProofArtifacts × World D). o.0) (succeed-injective e3))

  by_backend :
      (c : ProofGenerationConfig) (w w' : World D) (artifacts : ProofArtifacts)
      (backend : ProverBackend)
      → mode c ≡ only_execute
      → c.prev_proof_path ≡ none
      → (elim backend [
        | mock ↦ execute_without_setup system db c w
        | _ ↦ run_with_setup system db c w
      ])
        ≡ succeed (artifacts, w')
      → Executed c artifacts
  by_backend c w w' artifacts mock m p e = without_setup_lem c w w' artifacts p e
  by_backend c w w' artifacts cpu m p e = run_with_setup_lem c w w' artifacts m e
  by_backend c w w' artifacts cuda m p e = run_with_setup_lem c w w' artifacts m e

  generate_lem :
      (c : ProofGenerationConfig) (w w' : World D) (artifacts : ProofArtifacts)
      → c.execute_only ≡ true
      → c.prev_proof_path ≡ none
      → generate_and_save_proofs system db c w ≡ succeed (artifacts, w')
      → Executed c artifacts
  unfolding generate_and_save_proofs mode
  generate_lem c w w' artifacts x p e =
      let m : mode c ≡ only_execute = rw (mode, x) refl in
      by_backend c w w' artifacts c.prover_backend m p (rw (m, generate_and_save_proofs) at e)

  module _ (config : ProofGenerationConfig) (out_dir : List ℕ)
      (executes : config.execute_only ≡ true) (first_run : config.prev_proof_path ≡ none) where
    -- The cursor of the next batch.
    Cursor : List ProofArtifacts → Option ℕ → Type 0
    Cursor [] start = Unit {0}
    Cursor (a ∷ rest) start = start ≡ some a.end_height

    Resumes : ℕ → Session D → Type 0
    Resumes left st =
        Adjacent st.completed
        × (st.current_prev_proof ≡ none)
        × Cursor st.completed st.trusted_start_height

    extend_lem :
        (st : Session D) (artifacts : ProofArtifacts) (completed : List ProofArtifacts)
        → Adjacent completed
        → Cursor completed st.trusted_start_height
        → st.current_prev_proof ≡ none
        → Executed (batch_settings config out_dir st) artifacts
        → Adjacent (artifacts ∷ completed)
    unfolding Cursor Executed batch_settings execution_only
    extend_lem st artifacts [] adjacent cursor p ran = tt
    extend_lem st artifacts (a ∷ rest) adjacent cursor p (disk, b, prepared, same) = (
      sym (ap (λ (x : ProofArtifacts). x.first_new_height) same)
          ∙ prepared_first (batch_settings config out_dir st) disk a.end_height b p cursor prepared,
      adjacent,
    )

    Resumes-keeps :
        (left : ℕ) (st st' : Session D)
        → Resumes (suc left) st
        → Ran system db config out_dir st st'
        → Resumes left st'
    unfolding Resumes Cursor batch_settings
    Resumes-keeps left st st' (adjacent, p, cursor) ran =
        let executed =
          generate_lem (batch_settings config out_dir st) _ ran.world ran.artifacts executes p
            ran.generated in
        let longer = extend_lem st ran.artifacts st.completed adjacent cursor p executed in
        let no_proof : st'.current_prev_proof ≡ none = rw executes at ran.next_proof in
        let start : st'.trusted_start_height ≡ some ran.artifacts.end_height =
          rw executes at ran.next_start in
        (
          subst Adjacent (sym ran.logged) longer,
          no_proof,
          subst (λ l. Cursor l st'.trusted_start_height) (sym ran.logged) start,
        )

-- In a session that only executes, from no previous proof, over a database whose genesis record has
-- height zero: each batch starts at the height after the one where the batch before it ended.
pub run_batch_session-Adjacent :
    {D : Type 0} (system : System D) (db : Db) (config : ProofGenerationConfig) (out_dir : List ℕ)
    (w : World D) (labels : List (List ℕ)) (end : Session D)
    → ((genesis_hash : List ℕ) → GenesisAtZero system.digest db genesis_hash)
    → config.execute_only ≡ true
    → config.prev_proof_path ≡ none
    → run_batch_session system db config out_dir w labels ≡ succeed end
    → Adjacent end.completed
unfolding run_batch_session Resumes Cursor
run_batch_session-Adjacent system db config out_dir w labels end at_zero executes first_run e =
    let (_, (adjacent, _, _), _) =
      session_loop-keeps system db config out_dir
        (Resumes system db at_zero config out_dir executes first_run)
        (Resumes-keeps system db at_zero config out_dir executes first_run) config.batch_count _ end
        (tt, first_run, tt) e in
    adjacent
