-- ===== src/Witnesses/HostData.antt =====
-- A small chain in a database, for the tests of the host.
use zkpow.Prelude.{
  ℕ, List, [], ◌∷◌, ◌++◌, Option, none, some, ◌&&◌, leb, ltb, ◌==◌, if◌then◌else◌, replicate, refl,
  arith, All, ◌^◌, ◌<◌, ◌≡◌, length, zero, suc,
}
use zkpow.Bytes.Words.{IsU32}
use zkpow.State.{State}
use zkpow.Header.{Header}
use zkpow.Chain.Typed.{Typed}
use zkpow.Target.{genesis_target}
use zkpow.Host.Db.{Db, Row}

-- A row whose block hash is `hash`. The work is that of the limit of the network, for each block after
-- the first one.
abbrev pub row_of : List ℕ → ℕ → ℕ → ℕ → ℕ → Row
row_of hash height timestamp median work = record {
  height = height;
  block_hash = hash;
  version = 1;
  prev = hash;
  merkle_root = replicate 32 7;
  timestamp = timestamp;
  n_bits = 0x1d00_ffff;
  nonce = 9;
  chainwork = replicate 27 0 ++ (work ∷ 0 ∷ work ∷ 0 ∷ work ∷ []);
  median_time_past = median;
}

abbrev rows_of : List ℕ → List Row
rows_of hash = row_of hash 0 0 0 0 ∷ row_of hash 1 5 0 1 ∷ row_of hash 2 6 5 2 ∷ []

abbrev between : ℕ → ℕ → List Row → List Row
between start end [] = []
between start end (r ∷ rs) =
    let rest = between start end rs in
    if leb start r.height && ltb r.height end then r ∷ rest else rest

abbrev first_at : ℕ → List Row → Option Row
first_at height [] = none
first_at height (r ∷ rs) =
    let rest = first_at height rs in if r.height == height then some r else rest

abbrev pub small_db : List ℕ → Db
small_db hash = record {
  row_at = λ height. first_at height (rows_of hash);
  rows_between = λ start end. between start end (rows_of hash);
}

abbrev header_at_time : ℕ → Header
header_at_time timestamp = record {
  version = 1;
  prev_blockhash = replicate 32 0;
  merkle_root = replicate 32 7;
  timestamp = timestamp;
  compact_target = 0x1d00_ffff;
  nonce = 9;
}

-- The states after each of the blocks.
abbrev pub state_of : ℕ → ℕ → ℕ → List ℕ → State
state_of height timestamp work timestamps = record {
  header = header_at_time timestamp;
  block_hash = replicate 32 0;
  genesis_hash = replicate 32 0;
  current_nbits = 0x1d00_ffff;
  height = height;
  chain_work = record { limb0 = work; limb1 = 0; limb2 = 0; limb3 = 0 };
  current_work = record { limb0 = 0x1_0001_0001; limb1 = 0; limb2 = 0; limb3 = 0 };
  current_target = genesis_target;
  epoch_start_timestamp = 0;
  timestamps = timestamps;
}

abbrev pub genesis_state : State
genesis_state = state_of 0 0 0 (replicate 11 0)

abbrev pub third_state : State
third_state = state_of 2 6 0x2_0002_0002 (0 ∷ 5 ∷ 6 ∷ replicate 8 0)

abbrev pub second_state : State
second_state = state_of 1 5 0x1_0001_0001 (0 ∷ 5 ∷ replicate 9 0)

zeros-IsU32 : (n : ℕ) → All IsU32 (replicate n 0)
zeros-IsU32 zero = tt
zeros-IsU32 (suc n) = (omega arith, zeros-IsU32 n)

state_of-Typed :
    (height timestamp work : ℕ) (timestamps : List ℕ)
    → height < 2 ^ 32
    → timestamp < 2 ^ 32
    → work < 2 ^ 64
    → length timestamps ≡ 11
    → All IsU32 timestamps
    → Typed (state_of height timestamp work timestamps)
state_of-Typed height timestamp work timestamps height_fits time_fits work_fits length_is window =
    record {
      types = record {
        header_fits = record {
          version_fits = omega arith;
          prev_length = refl;
          root_length = refl;
          timestamp_fits = time_fits;
          target_fits = omega arith;
          nonce_fits = omega arith;
        };
        hash_length = refl;
        genesis_length = refl;
        nbits_fits = omega arith;
        height_fits = height_fits;
        chain_work_fits = record {
          fits0 = work_fits;
          fits1 = omega arith;
          fits2 = omega arith;
          fits3 = omega arith;
        };
        work_fits = record {
          fits0 = omega arith;
          fits1 = omega arith;
          fits2 = omega arith;
          fits3 = omega arith;
        };
        target_fits = record {
          fits0 = omega arith;
          fits1 = omega arith;
          fits2 = omega arith;
          fits3 = omega arith;
        };
        start_fits = omega arith;
        window_length = length_is;
        window_fits = window;
      };
      limit = omega arith;
    }

pub genesis_state-Typed : Typed genesis_state
genesis_state-Typed =
    state_of-Typed 0 0 0 (replicate 11 0) (omega arith) (omega arith) (omega arith) refl
      (zeros-IsU32 11)

pub second_state-Typed : Typed second_state
second_state-Typed =
    state_of-Typed 1 5 0x1_0001_0001 (0 ∷ 5 ∷ replicate 9 0) (omega arith) (omega arith)
      (omega arith) refl (omega arith, (omega arith, zeros-IsU32 9))
