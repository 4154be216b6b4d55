-- ===== src/Chain/Typed.antt =====
-- The invariant of the validation state: its fields fit their types and its target obeys the limit of
-- the network; and why a header that is hashed has fields that fit their types.
use zkpow.Prelude.{
  ℕ, zero, suc, ◌+◌, ◌%◌, ◌^◌, ◌≤◌, ◌<◌, ◌≡◌, sym, ap, subst, ◌∙◌, arith, List, [], ◌∷◌, ◌++◌, Bool,
  true, false, Result, returned, length, length-set, set, All, ◌==◌, if◌then◌else◌,
}
use zkpow.U256.{U256, IsU256, value}
use zkpow.Bytes.Words.{IsU32}
use zkpow.Header.{Header, NewHeader, into_header}
use zkpow.Header.RoundTrip.{IsHeader, IsNewHeader}
use zkpow.State.{State}
use zkpow.State.RoundTrip.{HasTypes}
use zkpow.Target.{genesis_target}
use zkpow.Target.Retarget.{next_bits-lt}
use zkpow.Chain.{ApplyFailure, previous_timestamp, Epoch, apply_headers}
use zkpow.Chain.Rules.{IsState, IsHash, Difficulty, same, retarget, Accepts, Follows, done, step}
use zkpow.Chain.Verdicts.{
  Verdict, all_valid, first_invalid, active_epoch_lem, apply_headers-Verdict,
}
use zkpow.Chain.Complete.{Difficulty-unique}

pub record Typed (s : State) : Type 0 where
  pub types : HasTypes s
  pub limit : value s.current_target ≤ value genesis_target

pub Typed-IsState : (s : State) → Typed s → IsState s
Typed-IsState s i = record {
  window_full = i.types.window_length;
  target_fits = i.types.target_fits;
  target_bound = i.limit;
}

All-set_U32 : (xs : List ℕ) (i v : ℕ) → v < 2 ^ 32 → All IsU32 xs → All IsU32 (set xs i v)
All-set_U32 [] i v h a = tt
All-set_U32 (x ∷ xs) zero v h (_, a) = (h, a)
All-set_U32 (x ∷ xs) (suc i) v h (p, a) = (p, All-set_U32 xs i v h a)

-- The difficulty of the next block fits its types.
pub Difficulty-types :
    (s : State) (e : Epoch)
    → Typed s
    → Difficulty s e
    → (e.nbits < 2 ^ 32) × IsU256 e.work × IsU256 e.target × (value e.target ≤ value genesis_target)
Difficulty-types s _ i (same p) =
    (i.types.nbits_fits, i.types.work_fits, i.types.target_fits, i.limit)
Difficulty-types s e i (retarget _ p pair fits work) =
    let (e', _, d, target_fits, bound) = active_epoch_lem s (Typed-IsState s i) in
    let one_epoch = Difficulty-unique s e' e d (retarget e p pair fits work) in
    (
      subst IsU32 (sym (ap (λ (x : ℕ × U256). x.0) pair))
          (next_bits-lt s.current_target s.epoch_start_timestamp (previous_timestamp s) i.limit),
      fits,
      subst (λ (x : Epoch). IsU256 x.target) one_epoch target_fits,
      subst (λ (x : Epoch). value x.target ≤ value genesis_target) one_epoch bound,
    )

-- The header of a candidate.
pub into_header-IsHeader :
    (s : State) (h : NewHeader) (nbits : ℕ)
    → length s.block_hash ≡ 32
    → nbits < 2 ^ 32
    → IsNewHeader h
    → IsHeader (into_header h s.block_hash nbits)
unfolding into_header
into_header-IsHeader s h nbits hash bits i = record {
  version_fits = i.version_fits;
  prev_length = hash;
  root_length = i.root_length;
  timestamp_fits = i.timestamp_fits;
  target_fits = bits;
  nonce_fits = i.nonce_fits;
}

All-front : (xs ys : List NewHeader) → All IsNewHeader (xs ++ ys) → All IsNewHeader xs
All-front [] ys a = tt
All-front (x ∷ xs) ys (p, a) = (p, All-front xs ys a)

pick : (b : Bool) (x y : ℕ) → x < 2 ^ 32 → y < 2 ^ 32 → (if b then x else y) < 2 ^ 32
pick true x y p q = p
pick false x y p q = q

module _ (hash_header : Header → List ℕ) (hashes : IsHash hash_header) where
  pub Accepts-Typed :
      (s t : State) (h : NewHeader) → Typed s → IsNewHeader h → Accepts hash_header s h t → Typed t
  Accepts-Typed s t h i j a =
      let (bits, work, target, bound) = Difficulty-types s a.epoch i a.difficulty in
      record {
        types = record {
          header_fits =
              subst IsHeader (sym a.header)
                (into_header-IsHeader s h a.epoch.nbits i.types.hash_length bits j);
          hash_length = ap length a.block_hash ∙ (hashes _).1;
          genesis_length = ap length a.genesis_hash ∙ i.types.genesis_length;
          nbits_fits = rw (a.current_nbits) bits;
          height_fits = rw (a.height) (omega arith);
          chain_work_fits = a.work_fits;
          work_fits = subst IsU256 (sym a.current_work) work;
          target_fits = subst IsU256 (sym a.current_target) target;
          start_fits = subst IsU32 (sym a.epoch_start) (
              pick ((s.height + 1) % 2 ^ 32 % 2016 == 0) h.timestamp s.epoch_start_timestamp
                j.timestamp_fits i.types.start_fits);
          window_length =
              ap length a.timestamps
              ∙ length-set s.timestamps _ h.timestamp
              ∙ i.types.window_length;
          window_fits =
              subst (All IsU32) (sym a.timestamps)
                (All-set_U32 s.timestamps _ h.timestamp j.timestamp_fits i.types.window_fits);
        };
        limit = subst (λ (x : U256). value x ≤ value genesis_target) (sym a.current_target) bound;
      }

  pub Follows-Typed :
      (s t : State) (hs : List NewHeader)
      → Typed s
      → All IsNewHeader hs
      → Follows hash_header s hs t
      → Typed t
  Follows-Typed s _ _ i a (done _) = i
  Follows-Typed s t _ i a (step {u = u} {h = h} {hs = hs} accepts follows) =
      Follows-Typed u t hs (Accepts-Typed s u h i a.0 accepts) a.1 follows

  Verdict-Typed :
      (s t : State) (hs : List NewHeader) (r : Result ApplyFailure (Unit {0}))
      → Typed s
      → All IsNewHeader hs
      → Verdict hash_header s hs t r
      → Typed t
  Verdict-Typed s t hs _ i a (all_valid follows) = Follows-Typed s t hs i a follows
  Verdict-Typed s t hs _ i a (first_invalid valid h rest split follows v p q) =
      Follows-Typed s t valid i (All-front valid (h ∷ rest) (subst (All IsNewHeader) split a))
        follows

-- For a hash of 32 bytes and headers whose fields fit their types: the state that a run leaves, on
-- success and on an error alike, has fields that fit their types and a target up to the limit of the
-- network, if the state it started from has.
pub apply_headers-Typed :
    (hash_header : Header → List ℕ) (s t : State) (headers : List NewHeader) (median_hints : List ℕ)
    (r : Result ApplyFailure (Unit {0}))
    → IsHash hash_header
    → Typed s
    → All IsNewHeader headers
    → length headers ≡ length median_hints
    → apply_headers hash_header s headers median_hints ≡ returned (t, r)
    → Typed t
apply_headers-Typed hash_header s t headers median_hints r hashes i a lengths run =
    Verdict-Typed hash_header hashes s t headers r i a (
      apply_headers-Verdict hash_header s t headers median_hints r hashes (Typed-IsState s i)
        i.types.height_fits lengths run)
