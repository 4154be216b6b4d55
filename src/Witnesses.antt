-- ===== src/Witnesses.antt =====
-- Tests of the definitions, and each theorem with hypotheses at a concrete input. The inputs that
-- the children share stand here.
mod ChainRuns
mod ByteForms
mod Numbers
mod GuestRuns
mod HostData
mod HostRuns
mod ExecuteRuns
mod MemoryRuns
mod SessionRuns
use zkpow.Prelude.{
  ℕ, zero, suc, ◌≤◌, ◌<◌, ◌≡◌, refl, arith, Bool, true, List, [], ◌∷◌, replicate, All,
}
use zkpow.Bytes.{IsByte}
use zkpow.U256.{U256, IsU256, value, zero_u256}
use zkpow.Header
use zkpow.Header.{Header, NewHeader}
use zkpow.State.{State, default_state}
use zkpow.Target.{genesis_target}
use zkpow.Chain.Rules.{IsState, IsHash}

abbrev pub first_header : NewHeader
first_header = record { version = 1; merkle_root = replicate 32 7; timestamp = 5; nonce = 9 }

-- A header whose timestamp is too old.
abbrev pub old_header : NewHeader
old_header = record { version = 1; merkle_root = replicate 32 7; timestamp = 0; nonce = 9 }

-- A hash that every target accepts.
abbrev pub zero_hash : Header → List ℕ
zero_hash h = replicate 32 0

-- System calls that give such a hash, and a check that accepts every proof.
abbrev pub same_words : List ℕ → List ℕ
same_words w = w

abbrev pub zero_state : List ℕ → List ℕ → List ℕ
zero_state w state = replicate 8 0

abbrev pub accept_all : List ℕ → List ℕ → Bool
accept_all key digest = true

-- The default state after the first header.
abbrev pub first_state : State
first_state = record default_state {
  header = Header.into_header first_header (replicate 32 0) 0;
  height = 1;
  timestamps = 0 ∷ 5 ∷ replicate 9 0;
}

pub zeros-IsByte : (n : ℕ) → All IsByte (replicate n 0)
zeros-IsByte zero = tt
zeros-IsByte (suc n) = (omega arith, zeros-IsByte n)

pub zero_hash-IsHash : IsHash zero_hash
zero_hash-IsHash h = (zeros-IsByte 32, refl)

pub zero_u256-IsU256 : IsU256 zero_u256
zero_u256-IsU256 = record {
  fits0 = omega arith;
  fits1 = omega arith;
  fits2 = omega arith;
  fits3 = omega arith;
}

pub zero-le-limit : value zero_u256 ≤ value genesis_target
unfolding value
zero-le-limit = omega arith

pub default_state-IsState : IsState default_state
default_state-IsState = record {
  window_full = refl;
  target_fits = zero_u256-IsU256;
  target_bound = zero-le-limit;
}
