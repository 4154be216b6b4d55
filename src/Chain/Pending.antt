-- ===== src/Chain/Pending.antt =====
-- The work that `State::apply_headers` of crates/core/src/state.rs holds back: a run of blocks of one
-- work stands for their sum.
use zkpow.Prelude.{
  ℕ, ◌+◌, ◌%◌, ◌^◌, ◌≤◌, ◌<◌, ◌≡◌, refl, ap, arith, Option, none, some, Bool-cases, inl, inr, ltb,
  if◌then◌else◌,
}
use zkpow.U256
use zkpow.U256.{U256, value, eq_u256, zero_u256}
use zkpow.U256.Arith.{value-injective, value-add, add-IsU256, value-mul_u32}
use zkpow.U256.Order.{eq_u256_iff}
use zkpow.State.{State}
use zkpow.Chain.{Run, flush, extend_run}

abbrev pub run : State → Option U256 → ℕ → Run
run s p c = record { state = s; pending_work = p; pending_count = c }

-- The chain work that a run stands for.
unfoldable pub settled_work : State → Option U256 → ℕ → U256
settled_work s none c = s.chain_work
settled_work s (some w) c =
    if ltb 0 c then U256.add s.chain_work (U256.mul_u32 w c) else s.chain_work

abbrev pub with_work : State → U256 → State
with_work s w = record s { chain_work = w }

-- Flushing changes the chain work alone.
pub flush_lem :
    (s : State) (p : Option U256) (c : ℕ)
    → flush (run s p c) ≡ run (with_work s (settled_work s p c)) none 0
unfolding flush settled_work
flush_lem s none c = refl
flush_lem s (some w) c = elim (Bool-cases (ltb 0 c)) [ inl e ↦ rw e | inr e ↦ rw e ]

-- Adding one block's work, and adding one to the count of a run of that work.
add-mul_u32-one : (a w : U256) → U256.add a (U256.mul_u32 w 1) ≡ U256.add a w
add-mul_u32-one a w =
    value-injective _ _ (add-IsU256 a (U256.mul_u32 w 1)) (add-IsU256 a w)
      (omega (arith, value-add a (U256.mul_u32 w 1), value-add a w, value-mul_u32 w 1))

add-mul_u32-suc :
    (a w : U256) (c : ℕ)
    → U256.add a (U256.mul_u32 w (c + 1)) ≡ U256.add (U256.add a (U256.mul_u32 w c)) w
add-mul_u32-suc a w c =
    value-injective _ _ (add-IsU256 a (U256.mul_u32 w (c + 1)))
      (add-IsU256 (U256.add a (U256.mul_u32 w c)) w)
      (omega (
        arith,
        value-add a (U256.mul_u32 w (c + 1)),
        value-add a (U256.mul_u32 w c),
        value-add (U256.add a (U256.mul_u32 w c)) w,
        value-mul_u32 w (c + 1),
        value-mul_u32 w c,
      ))

-- What a run is after one more block of work `w`.
pub record Extended (s : State) (p : Option U256) (c : ℕ) (w : U256) : Type 0 where
  pub base_work : U256
  pub run_work : U256
  pub count : ℕ
  pub shape : extend_run (run s p c) w ≡ run (with_work s base_work) (some run_work) count
  pub positive : 0 < count
  pub bounded : count ≤ c + 1
  pub adds : U256.add base_work (U256.mul_u32 run_work count) ≡ U256.add (settled_work s p c) w

same_work :
    (s : State) (u w : U256) (c : ℕ)
    → u ≡ w
    → U256.add s.chain_work (U256.mul_u32 u (c + 1)) ≡ U256.add (settled_work s (some u) c) w
unfolding settled_work
same_work s u w c e = elim (Bool-cases (ltb 0 c)) [
  | inl t ↦ rw (t, ← e) (add-mul_u32-suc s.chain_work u c)
  | inr f ↦ let z : c + 1 ≡ 1 = ground arith in rw (f, ← e, z) (add-mul_u32-one s.chain_work u)
]

abbrev started_by : U256 → Run → Run
started_by w r = record r { pending_work = some w; pending_count = 1 }

pub extended : (s : State) (p : Option U256) (c : ℕ) (w : U256) → c + 1 < 2 ^ 32 → Extended s p c w
unfolding extend_run flush settled_work
extended s none c w h = record {
  base_work = s.chain_work;
  run_work = w;
  count = 1;
  shape = refl;
  positive = omega arith;
  bounded = omega arith;
  adds = add-mul_u32-one s.chain_work w;
}
extended s (some u) c w h = elim (Bool-cases (eq_u256 u w)) [
  | inl e ↦
      let fits : (c + 1) % 2 ^ 32 ≡ c + 1 = omega arith in
      record {
        base_work = s.chain_work;
        run_work = u;
        count = c + 1;
        shape = rw (e, fits);
        positive = omega arith;
        bounded = omega arith;
        adds = same_work s u w c ((eq_u256_iff u w).0 e);
      }
  | inr e ↦ record {
    base_work = settled_work s (some u) c;
    run_work = w;
    count = 1;
    shape = rw e (ap (started_by w) (flush_lem s (some u) c));
    positive = omega arith;
    bounded = omega arith;
    adds = add-mul_u32-one (settled_work s (some u) c) w;
  }
]
