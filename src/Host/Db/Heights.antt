-- ===== src/Host/Db/Heights.antt =====
-- The height of a state that is read from the database.
use zkpow.Prelude.{
  ℕ, ◌+◌, ◌-◌, ◌*◌, ◌/◌, ◌%◌, ◌^◌, ◌≡◌, refl, ap, sym, ◌∙◌, arith, min, List, Outcome, returned,
  panicked, ◌>>=◌, expect, Bool-cases, inl, inr, ◌==◌, ==_iff,
}
use zkpow.State.{State, window_size}
use zkpow.Target.{target_from_bits, genesis_target, epoch_length}
use zkpow.Work.{work_from_target}
use zkpow.Guest.{eq_bytes}
use zkpow.Host.Hash.{host_hash_header}
use zkpow.Host.Db.{
  Db, HeaderRecord, load_header_record, load_header_records, genesis_state_from_record,
  state_from_db_at_height,
}

-- A chain of calls that returns.
pub >>=-returned {ℓ κ} :
    {A : Type ℓ} {B : Type κ} (m : Outcome A) (f : A → Outcome B) (b : B)
    → (m >>= f) ≡ returned b
    → (a : A) × (m ≡ returned a) × (f a ≡ returned b)
>>=-returned (returned a) f b e = (a, refl, e)
>>=-returned panicked f b e = absurd (ground arith)

state_height : {s t : State} → returned s ≡ returned t → s.height ≡ t.height
state_height {s = s} e =
    ap (λ (o : Outcome State). elim o [ returned x ↦ x.height | panicked ↦ s.height ]) e

module _ (digest : List ℕ → List ℕ) (db : Db) (genesis_hash : List ℕ) where
  -- The genesis record is that of height zero.
  abbrev pub GenesisAtZero : Type 0
  GenesisAtZero = (r : HeaderRecord) → load_header_record db 0 ≡ returned r → r.height % 2 ^ 32 ≡ 0

  genesis_height :
      (r : HeaderRecord) (s : State)
      → genesis_state_from_record digest r genesis_hash ≡ returned s
      → s.height ≡ r.height % 2 ^ 32
  unfolding genesis_state_from_record
  genesis_height r s e =
      elim (Bool-cases (eq_bytes (host_hash_header digest r.header) genesis_hash)) [
        | inr other ↦ absurd (
            let bad : panicked ≡ returned s = rw (other, genesis_state_from_record) at e in
            ground arith)
        | inl same ↦
            let e' = rw (same, genesis_state_from_record) at e in
            let (w, _, e'') = >>=-returned (expect (work_from_target genesis_target)) _ s e' in
            sym (state_height e'')
      ]

  pub state_from_db_at_height-height :
      (height : ℕ) (s : State)
      → GenesisAtZero
      → state_from_db_at_height digest db height genesis_hash ≡ returned s
      → s.height ≡ height
  unfolding state_from_db_at_height
  state_from_db_at_height-height height s at_zero e = elim (Bool-cases (height == 0)) [
    | inl zero_height ↦
        let h : height ≡ 0 = (==_iff height 0).0 zero_height in
        let e' = rw (zero_height, state_from_db_at_height) at e in
        let (r, loaded, e'') = >>=-returned (load_header_record db 0) _ s e' in
        genesis_height r s e'' ∙ at_zero r loaded ∙ sym h
    | inr later ↦
        let e1 = rw (later, state_from_db_at_height) at e in
        let (c, _, e2) = >>=-returned (load_header_record db height) _ s e1 in
        let (d, _, e3) =
          >>=-returned (load_header_record db (height / epoch_length * epoch_length)) _ s e2 in
        let (w, _, e4) =
          >>=-returned
            (load_header_records db (height + 1 - min (height + 1) window_size)
              (min (height + 1) window_size))
            _ s e3 in
        let (v, _, e5) =
          >>=-returned (expect (work_from_target (target_from_bits c.header.compact_target))) _ s
            e4 in
        sym (state_height e5)
  ]
