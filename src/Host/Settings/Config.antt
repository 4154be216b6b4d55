-- ===== src/Host/Settings/Config.antt =====
-- What holds of a configuration that is read from the environment.
use zkpow.Prelude.{
  ℕ, ◌≡◌, ◌≢◌, refl, arith, sym, ap, subst, ◌∙◌, List, Option, none, some, Result, ok, err, Bool,
  true, false, ◌&&◌, inl, inr, Bool-cases, if◌then◌else◌,
}
use zkpow.Host.Settings.{
  ProverBackend, mock, cpu, cuda, ProofGenerationConfig, only_execute, prove_compressed,
  prove_compressed_and_groth16, mode, EnvSource, SettingError, groth16_without_proof,
  parse_bool_env, parse_u32_env, parse_u32_env_or, env_use_cuda, env_cuda_device_id,
  env_execute_only, env_generate_groth16, env_batch_size, env_batch_count,
  ensure_cuda_requested_configuration, backend_for, config_from_source, ◌>>=◌,
}

ok-injective : {A : Type 0} {a b : A} → ◌≡◌ {A = Result SettingError A} (ok a) (ok b) → a ≡ b
ok-injective {a = a} e = ap (λ r. elim r [ ok x ↦ x | err x ↦ a ]) e

proving_mode :
    (b : Bool) → (if b then prove_compressed_and_groth16 else prove_compressed) ≢ only_execute
proving_mode true e = ground arith
proving_mode false e = ground arith

>>=-ok :
    {A B : Type 0} (m : Result SettingError A) (f : A → Result SettingError B) (b : B)
    → (m >>= f) ≡ ok b
    → (a : A) × (m ≡ ok a) × (f a ≡ ok b)
>>=-ok (ok a) f b e = (a, refl, e)
>>=-ok (err x) f b e = absurd (ground arith)

-- The guarantees that the rest of the host relies on.
pub record Coherent (cuda_compiled : Bool) (config : ProofGenerationConfig) : Type 0 where
  pub not_both : (config.execute_only && config.generate_groth16) ≡ false
  pub device_needs_cuda : (id : ℕ) → config.cuda_device_id ≡ some id → config.prover_backend ≡ cuda
  pub cuda_is_compiled : config.prover_backend ≡ cuda → cuda_compiled ≡ true
  pub mock_only_executes : config.prover_backend ≡ mock → mode config ≡ only_execute
  pub cpu_proves : config.prover_backend ≡ cpu → mode config ≢ only_execute
  pub no_cursor : config.trusted_start_height ≡ none

-- The backend, by what was asked for.
data Chosen (compiled : Bool) (id : Option ℕ) (execute : Bool) : ProverBackend → Type 0 where
  no_proof : id ≡ none → execute ≡ true → Chosen compiled id execute mock
  on_cpu : id ≡ none → execute ≡ false → Chosen compiled id execute cpu
  on_cuda : compiled ≡ true → Chosen compiled id execute cuda

backend_lem :
    (compiled : Bool) (path : List ℕ) (wanted execute : Bool) (id : Option ℕ)
    (backend : ProverBackend)
    → ensure_cuda_requested_configuration compiled path wanted id ≡ ok backend
    → Chosen compiled id execute (backend_for compiled path execute backend)
unfolding ensure_cuda_requested_configuration backend_for
backend_lem compiled path false true none backend e =
    subst (λ (b : ProverBackend). Chosen compiled none true (backend_for compiled path true b))
      (ok-injective e) (no_proof refl refl)
backend_lem compiled path false false none backend e =
    subst (λ (b : ProverBackend). Chosen compiled none false (backend_for compiled path false b))
      (ok-injective e) (on_cpu refl refl)
backend_lem compiled path false execute (some id) backend e = absurd (ground arith)
backend_lem false path true execute id backend e = absurd (ground arith)
backend_lem true path true true id backend e =
    subst (λ (b : ProverBackend). Chosen true id true (backend_for true path true b))
      (ok-injective e) (on_cuda refl)
backend_lem true path true false id backend e =
    subst (λ (b : ProverBackend). Chosen true id false (backend_for true path false b))
      (ok-injective e) (on_cuda refl)

coherent_lem :
    (compiled : Bool) (c : ProofGenerationConfig) (id : Option ℕ) (execute : Bool)
    (backend : ProverBackend)
    → (c.execute_only && c.generate_groth16) ≡ false
    → c.trusted_start_height ≡ none
    → c.cuda_device_id ≡ id
    → c.execute_only ≡ execute
    → c.prover_backend ≡ backend
    → Chosen compiled id execute backend
    → Coherent compiled c
unfolding mode
coherent_lem compiled c id execute _ both n i x b (no_proof none_asked exec) = record {
  not_both = both;
  device_needs_cuda =
      λ d e. absurd (let bad : some d ≡ none = sym e ∙ i ∙ none_asked in ground arith);
  cuda_is_compiled = λ e. absurd (let bad : mock ≡ cuda = sym b ∙ e in ground arith);
  mock_only_executes = λ e. rw (mode, x, exec) refl;
  cpu_proves = λ e _. let bad : mock ≡ cpu = sym b ∙ e in ground arith;
  no_cursor = n;
}
coherent_lem compiled c id execute _ both n i x b (on_cpu none_asked proves) = record {
  not_both = both;
  device_needs_cuda =
      λ d e. absurd (let bad : some d ≡ none = sym e ∙ i ∙ none_asked in ground arith);
  cuda_is_compiled = λ e. absurd (let bad : cpu ≡ cuda = sym b ∙ e in ground arith);
  mock_only_executes = λ e. absurd (let bad : cpu ≡ mock = sym b ∙ e in ground arith);
  cpu_proves = λ e. rw (mode, x, proves) (proving_mode c.generate_groth16);
  no_cursor = n;
}
coherent_lem compiled c id execute _ both n i x b (on_cuda is_compiled) = record {
  not_both = both;
  device_needs_cuda = λ d e. b;
  cuda_is_compiled = λ e. is_compiled;
  mock_only_executes = λ e. absurd (let bad : cuda ≡ mock = sym b ∙ e in ground arith);
  cpu_proves = λ e _. let bad : cuda ≡ cpu = sym b ∙ e in ground arith;
  no_cursor = n;
}

-- A configuration that is read from the environment is coherent: a batch is not both only executed and
-- wrapped; a device is chosen for the CUDA backend only, which is compiled in; the mock backend only
-- executes and the CPU backend proves; and the session starts without a trusted height.
pub config_from_source-Coherent :
    (cuda_compiled : Bool) (default_db_path : List ℕ) (source : EnvSource)
    (config : ProofGenerationConfig)
    → config_from_source cuda_compiled default_db_path source ≡ ok config
    → Coherent cuda_compiled config
unfolding config_from_source
config_from_source-Coherent compiled path source config e =
    let (wanted, _, e1) = >>=-ok (parse_bool_env source env_use_cuda) _ config e in
    let (id, _, e2) = >>=-ok (parse_u32_env source env_cuda_device_id) _ config e1 in
    let (execute, _, e3) = >>=-ok (parse_bool_env source env_execute_only) _ config e2 in
    let (groth16, _, e4) = >>=-ok (parse_bool_env source env_generate_groth16) _ config e3 in
    elim (Bool-cases (execute && groth16)) [
      | inl both ↦ absurd (
          let bad : ◌≡◌ {A = Result SettingError ProofGenerationConfig} (err groth16_without_proof)
              (ok config) =
            rw both at e4 in
          ground arith)
      | inr fine ↦
          let e5 = rw fine at e4 in
          let (size, _, e6) = >>=-ok (parse_u32_env_or source env_batch_size 2016) _ config e5 in
          let (count, _, e7) = >>=-ok (parse_u32_env_or source env_batch_count 500) _ config e6 in
          let (backend, chosen, e8) =
            >>=-ok (ensure_cuda_requested_configuration compiled path wanted id) _ config e7 in
          subst (Coherent compiled) (ok-injective e8) (
            coherent_lem compiled _ id execute (backend_for compiled path execute backend) fine refl
              refl refl refl (backend_lem compiled path wanted execute id backend chosen))
    ]
