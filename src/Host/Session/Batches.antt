-- ===== src/Host/Session/Batches.antt =====
-- What holds of a session: how many batches it ran, and where each of them started.
use zkpow.Prelude.{
  ℕ, zero, suc, ◌+◌, ◌≤◌, ◌≡◌, refl, ap, subst, arith, List, [], ◌∷◌, none, some, ok, err, returned,
  panicked, Bool, true, false, Bool-cases, Result-cases, ◌⊎◌, inl, inr, length, length-append, ◌==◌,
  if◌then◌else◌,
}
use zkpow.Memory.{iterations, new_history, push_iteration}
use zkpow.Host.Attempt.{
  Attempt, BoxError, succeed, fail, row_mismatch, is_header_exhaustion_error, succeed-injective,
}
use zkpow.Host.Db.{Db}
use zkpow.Host.Settings.{ProofGenerationConfig}
use zkpow.Host.Session.{
  System, World, ProofArtifacts, Session, samples, batch_settings, generate_and_save_proofs,
  after_batch, count_up, count_down, end_batch, run_next, session_loop, run_batch_session,
}

module _ {D : Type 0} (system : System D) (db : Db) (config : ProofGenerationConfig)
    (out_dir : List ℕ) where
  -- A batch that the session ran, and the session after it.
  pub record Ran (st st' : Session D) : Type 0 where
    pub artifacts : ProofArtifacts
    pub disk : D
    pub world : World D
    pub generated :
        generate_and_save_proofs system db
          (batch_settings config out_dir st)
          (record { disk = disk; prepared = st.world.prepared })
        ≡ succeed (artifacts, world)
    pub counted : st'.batch_count ≡ st.batch_count + 1
    pub logged : st'.completed ≡ artifacts ∷ st.completed
    pub next_proof :
        st'.current_prev_proof ≡ (if config.execute_only then none else artifacts.compressed_path)
    pub next_start :
        st'.trusted_start_height ≡ (if config.execute_only then some artifacts.end_height else none)
    pub row_added : iterations st'.memory_history ≡ iterations st.memory_history + 1
    pub same_labels : st'.memory_history.stage_labels ≡ st.memory_history.stage_labels

  -- What one round of the loop does, where it does not fail.
  pub data Round (st : Session D) : Attempt (Bool × Session D) → Type 0 where
    no_headers : Round st (succeed (false, st))
    on : (st' : Session D) → Ran st st' → Round st (succeed (true, st'))
    failed : (e : BoxError) → Round st (fail e)
    stopped : Round st panicked

  counted_back : (st : Session D) → count_down (count_up st) ≡ st
  unfolding count_down count_up
  counted_back st = ap (λ (n : ℕ). record st { batch_count = n }) (omega arith)

  after_lem :
      (st : Session D) (disk : D) (o : Attempt (ProofArtifacts × World D))
      → generate_and_save_proofs system db
          (batch_settings config out_dir st)
          (record { disk = disk; prepared = st.world.prepared })
        ≡ o
      → Round st (end_batch system db config out_dir (count_up st) o)
  unfolding end_batch after_batch count_up push_iteration iterations
  after_lem st disk panicked e = stopped
  after_lem st disk (returned (err x)) e = elim (Bool-cases (is_header_exhaustion_error x)) [
    | inl exhausted ↦ rw (end_batch, exhausted, counted_back st) no_headers
    | inr other ↦ rw (end_batch, other) (failed x)
  ]
  after_lem st disk (returned (ok (artifacts, w))) e =
      elim (Bool-cases (3 == length st.memory_history.stage_labels)) [
        | inr other ↦ rw (end_batch, after_batch, push_iteration, other) (failed row_mismatch)
        | inl same ↦
            rw (end_batch, after_batch, push_iteration, same)
              (on _ (record {
                artifacts = artifacts;
                disk = disk;
                world = w;
                generated = e;
                counted = refl;
                logged = refl;
                next_proof = refl;
                next_start = refl;
                row_added = omega (
                  arith,
                  length-append st.memory_history.rows
                      (samples system db config out_dir (st.batch_count + 1) ∷ []),
                );
                same_labels = refl;
              }))
      ]

  run_next-Round : (st : Session D) → Round st (run_next system db config out_dir st)
  unfolding run_next count_up batch_settings
  run_next-Round st = elim (Result-cases (system.create_dir_all st.world.disk out_dir)) [
    | inr (e, p) ↦ rw (run_next, p) (failed e)
    | inl (disk, p) ↦
        rw (run_next, p)
          (after_lem st disk
            (generate_and_save_proofs system db (batch_settings config out_dir st)
              (record { disk = disk; prepared = st.world.prepared }))
            refl)
  ]

  -- How a session ends: no batch is left to run, or the next one finds no headers.
  pub Ended : ℕ → Session D → Type 0
  Ended left st = (left ≡ 0) ⊎ (run_next system db config out_dir st ≡ succeed (false, st))

  module _ (P : ℕ → Session D → Type 0)
      (keeps : (left : ℕ) (st st' : Session D) → P (suc left) st → Ran st st' → P left st') where
    after_round :
        (left : ℕ) (st end : Session D) (o : Attempt (Bool × Session D))
        → run_next system db config out_dir st ≡ o
        → Round st o
        → P (suc left) st
        → ((st' : Session D)
            → P left st'
            → session_loop system db config out_dir left st' ≡ succeed end
            → (n : ℕ) × P n end × Ended n end)
        → (elim o [
          | panicked ↦ panicked
          | returned (err e) ↦ fail e
          | returned (ok (false, st')) ↦ succeed st'
          | returned (ok (true, st')) ↦ session_loop system db config out_dir left st'
        ])
          ≡ succeed end
        → (n : ℕ) × P n end × Ended n end
    unfolding Ended
    after_round left st end _ run no_headers p rest e =
        subst (λ (x : Session D). (n : ℕ) × P n x × Ended n x) (succeed-injective e)
          (suc left, p, inr run)
    after_round left st end _ run (on st' ran) p rest e = rest st' (keeps left st st' p ran) e
    after_round left st end _ run (failed x) p rest e = absurd (ground arith)
    after_round left st end _ run stopped p rest e = absurd (ground arith)

    -- What each batch keeps, a session that ends well has kept.
    pub session_loop-keeps :
        (left : ℕ) (st end : Session D)
        → P left st
        → session_loop system db config out_dir left st ≡ succeed end
        → (n : ℕ) × P n end × Ended n end
    unfolding session_loop Ended
    session_loop-keeps zero st end p e =
        subst (λ (x : Session D). (n : ℕ) × P n x × Ended n x) (succeed-injective e)
          (zero, p, inl refl)
    session_loop-keeps (suc left) st end p e =
        after_round left st end (run_next system db config out_dir st) refl (run_next-Round st) p
          (λ st' p' e'. session_loop-keeps left st' end p' e') e

  -- The counters of a session go together.
  Counted : ℕ → Session D → Type 0
  Counted left st =
      (st.batch_count + left ≡ config.batch_count)
      × (length st.completed ≡ st.batch_count)
      × (iterations st.memory_history ≡ st.batch_count)

  Counted-keeps :
      (left : ℕ) (st st' : Session D) → Counted (suc left) st → Ran st st' → Counted left st'
  unfolding Counted
  Counted-keeps left st st' (a, b, c) ran =
      let logged = ap length ran.logged in
      (
        omega (arith, ran.counted),
        omega (arith, ran.counted, logged),
        omega (arith, ran.counted, ran.row_added),
      )

-- A session that ends well has run at most as many batches as are configured, as many as it logged, each
-- with its row in the table of samples; and it has run them all, or the batch after the last one finds no
-- headers in the database.
pub run_batch_session-counts :
    {D : Type 0} (system : System D) (db : Db) (config : ProofGenerationConfig) (out_dir : List ℕ)
    (w : World D) (labels : List (List ℕ)) (end : Session D)
    → run_batch_session system db config out_dir w labels ≡ succeed end
    → (end.batch_count ≤ config.batch_count)
      × (length end.completed ≡ end.batch_count)
      × (iterations end.memory_history ≡ end.batch_count)
      × ((end.batch_count ≡ config.batch_count)
          ⊎ (run_next system db config out_dir end ≡ succeed (false, end)))
unfolding run_batch_session Counted Ended new_history iterations
run_batch_session-counts system db config out_dir w labels end e =
    let (n, (a, b, c), ended) =
      session_loop-keeps system db config out_dir (Counted system db config out_dir)
        (Counted-keeps system db config out_dir) config.batch_count _ end (omega arith, refl, refl)
        e in
    (omega arith, b, c, elim ended [ inl done ↦ inl (omega arith) | inr last ↦ inr last ])
