-- ===== src/Host/Settings.antt =====
-- The settings of the host: `ProofGenerationConfig` of crates/host/src/pipeline/mod.rs, and
-- pipeline/input.rs up to `config_from_source`. A text is its bytes; the environment is a parameter, as
-- are the features that the build was given, and the default path of the database.
pub mod Config
use zkpow.Prelude.{
  ℕ, ◌+◌, ◌-◌, ◌*◌, ◌^◌, List, [], ◌∷◌, map, Option, none, some, Result, ok, err, Bool, true, false,
  ◌&&◌, ◌||◌, leb, ltb, ◌==◌, length, if◌then◌else◌,
}
use zkpow.Guest.{eq_bytes}
use zkpow.Host.Db.{reverse_bytes}

pub data ProverBackend : Type 0 where
  mock : ProverBackend
  cpu : ProverBackend
  cuda : ProverBackend

pub record ProofGenerationConfig : Type 0 where
  pub prev_proof_path : Option (List ℕ)
  pub trusted_start_height : Option ℕ
  pub num_headers : ℕ
  pub batch_count : ℕ
  pub db_path : List ℕ
  pub output_dir : List ℕ
  pub generate_groth16 : Bool
  pub execute_only : Bool
  pub prover_backend : ProverBackend
  pub cuda_device_id : Option ℕ

pub data PipelineMode : Type 0 where
  only_execute : PipelineMode
  prove_compressed : PipelineMode
  prove_compressed_and_groth16 : PipelineMode

-- `ProofGenerationConfig::mode`
unfoldable pub mode : ProofGenerationConfig → PipelineMode
mode config =
    if config.execute_only
    then only_execute
    else if config.generate_groth16
    then prove_compressed_and_groth16
    else prove_compressed

-- The names of the variables, `ENV_ZKPOW_…`.
pub data Setting : Type 0 where
  env_batch_size : Setting
  env_batch_count : Setting
  env_output_dir : Setting
  env_db_path : Setting
  env_prev_proof : Setting
  env_execute_only : Setting
  env_generate_groth16 : Setting
  env_use_cuda : Setting
  env_cuda_device_id : Setting

pub data VarError : Type 0 where
  not_present : VarError
  not_unicode : VarError

pub data SettingError : Type 0 where
  invalid_value : Setting → SettingError
  variable : VarError → SettingError
  device_without_cuda : SettingError
  cuda_not_compiled : SettingError
  groth16_without_proof : SettingError

-- `EnvSource`
abbrev pub EnvSource : Type 0
EnvSource = Setting → Result VarError (List ℕ)

-- `to_ascii_lowercase`
abbrev pub lower_byte : ℕ → ℕ
lower_byte b = if leb 65 b && leb b 90 then b + 32 else b

unfoldable pub to_ascii_lowercase : List ℕ → List ℕ
to_ascii_lowercase text = map (λ (b : ℕ). lower_byte b) text

abbrev pub text_1 : List ℕ
text_1 = 49 ∷ []

abbrev pub text_true : List ℕ
text_true = 116 ∷ 114 ∷ 117 ∷ 101 ∷ []

abbrev pub text_yes : List ℕ
text_yes = 121 ∷ 101 ∷ 115 ∷ []

abbrev pub text_on : List ℕ
text_on = 111 ∷ 110 ∷ []

abbrev pub text_0 : List ℕ
text_0 = 48 ∷ []

abbrev pub text_false : List ℕ
text_false = 102 ∷ 97 ∷ 108 ∷ 115 ∷ 101 ∷ []

abbrev pub text_no : List ℕ
text_no = 110 ∷ 111 ∷ []

abbrev pub text_off : List ℕ
text_off = 111 ∷ 102 ∷ 102 ∷ []

-- The words for a Boolean value.
unfoldable pub bool_of : List ℕ → Option Bool
bool_of word =
    if eq_bytes word text_1
      || eq_bytes word text_true
      || eq_bytes word text_yes
      || eq_bytes word text_on
    then some true
    else if eq_bytes word text_0
        || eq_bytes word text_false
        || eq_bytes word text_no
        || eq_bytes word text_off
    then some false
    else none

unfoldable pub parse_bool_env_or : EnvSource → Setting → Bool → Result SettingError Bool
parse_bool_env_or source var_name default = elim (source var_name) [
  | err not_present ↦ ok default
  | err not_unicode ↦ err (variable not_unicode)
  | ok value ↦ elim (bool_of (to_ascii_lowercase value)) [
    | some b ↦ ok b
    | none ↦ err (invalid_value var_name)
  ]
]

unfoldable pub parse_bool_env : EnvSource → Setting → Result SettingError Bool
unfolding parse_bool_env_or
parse_bool_env source var_name = parse_bool_env_or source var_name false

-- `str::parse::<u32>`: decimal digits, at least one, after a plus sign at most; no overflow.
unfoldable pub parse_digits : List ℕ → ℕ → Option ℕ
parse_digits [] value = some value
parse_digits (d ∷ ds) value =
    if leb 48 d && leb d 57 && ltb (10 * value + (d - 48)) (2 ^ 32)
    then parse_digits ds (10 * value + (d - 48))
    else none

unfoldable pub parse_unsigned : List ℕ → Option ℕ
parse_unsigned [] = none
parse_unsigned (d ∷ ds) = parse_digits (d ∷ ds) 0

unfoldable pub parse_u32 : List ℕ → Option ℕ
parse_u32 [] = none
parse_u32 (d ∷ ds) = if d == 43 then parse_unsigned ds else parse_unsigned (d ∷ ds)

unfoldable pub parse_u32_env : EnvSource → Setting → Result SettingError (Option ℕ)
parse_u32_env source var_name = elim (source var_name) [
  | err not_present ↦ ok none
  | err not_unicode ↦ err (variable not_unicode)
  | ok value ↦ elim (parse_u32 value) [ some n ↦ ok (some n) | none ↦ err (invalid_value var_name) ]
]

unfoldable pub parse_u32_env_or : EnvSource → Setting → ℕ → Result SettingError ℕ
parse_u32_env_or source var_name default = elim (parse_u32_env source var_name) [
  | err e ↦ err e
  | ok none ↦ ok default
  | ok (some n) ↦ ok n
]

unfoldable pub parse_path_env : EnvSource → Setting → Option (List ℕ)
parse_path_env source var_name = elim (source var_name) [ ok path ↦ some path | err _ ↦ none ]

-- `unwrap_or_else` on a path.
abbrev pub path_or : Option (List ℕ) → List ℕ → List ℕ
path_or none default = default
path_or (some path) default = path

-- The path `.`
abbrev pub current_dir : List ℕ
current_dir = 46 ∷ []

-- `?`
infixl 5 ◌>>=◌
abbrev pub ◌>>=◌ {ℓ κ} :
    {A : Type ℓ} {B : Type κ}
    → Result SettingError A
    → (A → Result SettingError B)
    → Result SettingError B
ok a >>= f = f a
err e >>= f = err e

module _ (cuda_compiled : Bool) (default_db_path : List ℕ) where
  unfoldable pub ensure_cuda_requested_configuration :
      Bool → Option ℕ → Result SettingError ProverBackend
  ensure_cuda_requested_configuration false none = ok cpu
  ensure_cuda_requested_configuration false (some id) = err device_without_cuda
  ensure_cuda_requested_configuration true id =
      if cuda_compiled then ok cuda else err cuda_not_compiled

  -- `execute_only` turns the CPU prover into the mock prover.
  unfoldable pub backend_for : Bool → ProverBackend → ProverBackend
  backend_for true cpu = mock
  backend_for _ backend = backend

  unfoldable pub config_from_source : EnvSource → Result SettingError ProofGenerationConfig
  config_from_source source = do
    use_cuda ← parse_bool_env source env_use_cuda
    cuda_device_id ← parse_u32_env source env_cuda_device_id
    execute_only ← parse_bool_env source env_execute_only
    generate_groth16 ← parse_bool_env source env_generate_groth16
    checked ← (if execute_only && generate_groth16 then err groth16_without_proof else ok (tt {0}))
    num_headers ← parse_u32_env_or source env_batch_size 2016
    batch_count ← parse_u32_env_or source env_batch_count 500
    configured_backend ← ensure_cuda_requested_configuration use_cuda cuda_device_id
    ok (record {
      prev_proof_path = parse_path_env source env_prev_proof;
      trusted_start_height = none;
      num_headers = num_headers;
      batch_count = batch_count;
      db_path = path_or (parse_path_env source env_db_path) default_db_path;
      output_dir = path_or (parse_path_env source env_output_dir) current_dir;
      generate_groth16 = generate_groth16;
      execute_only = execute_only;
      prover_backend = backend_for execute_only configured_backend;
      cuda_device_id = cuda_device_id;
    })

-- `GENESIS_HASH_HEX`
abbrev pub genesis_hash_hex : List ℕ
genesis_hash_hex =
    48 ∷ 48 ∷ 48 ∷ 48 ∷ 48 ∷ 48 ∷ 48 ∷ 48 ∷ 48 ∷ 48 ∷ 49 ∷ 57 ∷ 100 ∷ 54 ∷ 54 ∷ 56 ∷ 57 ∷ 99 ∷ 48
    ∷ 56 ∷ 53 ∷ 97 ∷ 101 ∷ 49 ∷ 54 ∷ 53 ∷ 56 ∷ 51 ∷ 49 ∷ 101 ∷ 57 ∷ 51 ∷ 52 ∷ 102 ∷ 102 ∷ 55 ∷ 54
    ∷ 51 ∷ 97 ∷ 101 ∷ 52 ∷ 54 ∷ 97 ∷ 50 ∷ 97 ∷ 54 ∷ 99 ∷ 49 ∷ 55 ∷ 50 ∷ 98 ∷ 51 ∷ 102 ∷ 49 ∷ 98 ∷ 54
    ∷ 48 ∷ 97 ∷ 56 ∷ 99 ∷ 101 ∷ 50 ∷ 54 ∷ 102 ∷ []

-- `hex::decode` on a digit, and on a text of an even number of digits.
abbrev pub hex_digit : ℕ → Option ℕ
hex_digit d =
    if leb 48 d && leb d 57
    then some (d - 48)
    else if leb 97 d && leb d 102
    then some (d - 87)
    else if leb 65 d && leb d 70
    then some (d - 55)
    else none

unfoldable pub hex_decode : List ℕ → Option (List ℕ)
hex_decode [] = some []
hex_decode (h ∷ []) = none
hex_decode (h ∷ l ∷ text) = elim (hex_digit h) [
  | none ↦ none
  | some high ↦ elim (hex_digit l) [
    | none ↦ none
    | some low ↦ elim (hex_decode text) [
      | none ↦ none
      | some rest ↦ some ((16 * high + low) ∷ rest)
    ]
  ]
]

-- A text that is no hash of 32 bytes is an error.
unfoldable pub hash_of_hex : List ℕ → Option (List ℕ)
hash_of_hex text = elim (hex_decode text) [
  | none ↦ none
  | some bytes ↦ if length bytes == 32 then some (reverse_bytes bytes) else none
]

unfoldable pub parse_genesis_hash : Option (List ℕ)
parse_genesis_hash = hash_of_hex genesis_hash_hex
