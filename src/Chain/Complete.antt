-- ===== src/Chain/Complete.antt =====
-- The rules leave no choice, and the loop accepts every segment that they allow.
use zkpow.Prelude.{
  ℕ, ◌^◌, ◌≤◌, ◌<◌, ◌≡◌, refl, sym, ap, subst, ◌∙◌, arith, List, ok, returned, length, length-set,
}
use zkpow.U256
use zkpow.U256.{U256, IsU256, value}
use zkpow.U256.Arith.{value-injective, add-IsU256, value-add}
use zkpow.Header.{Header, NewHeader, into_header}
use zkpow.State.{State}
use zkpow.Median.{median_time_past}
use zkpow.Chain.{Epoch, ValidationErrorCode, Round, next, assign_state, apply_headers}
use zkpow.Chain.Eager.{accept, eager_header, eager_loop}
use zkpow.Chain.Refine.{apply_headers_refines}
use zkpow.Chain.Rules.{
  IsState, IsHash, Difficulty, same, retarget, Accepts, Follows, done, step, Violates, too_old,
  too_easy, block_of,
}
use zkpow.Chain.Verdicts.{Judged, allowed, refused, eager_header_lem, active_epoch_lem}
use zkpow.Chain.Hints.{true_medians, length-true_medians}

Epoch_eq : (d e : Epoch) → d.nbits ≡ e.nbits → d.target ≡ e.target → d.work ≡ e.work → d ≡ e
Epoch_eq d e p q r = rw (p, q, r) refl

pub Difficulty-unique : (s : State) (d e : Epoch) → Difficulty s d → Difficulty s e → d ≡ e
Difficulty-unique s _ _ (same p) (same q) = refl
Difficulty-unique s _ e (same p) (retarget _ q pair fits work) = absurd (ground arith)
Difficulty-unique s d _ (retarget _ p pair fits work) (same q) = absurd (ground arith)
Difficulty-unique s d e (retarget _ p pair fits work) (retarget _ q pair' fits' work') =
    let both = pair ∙ sym pair' in
    let targets : d.target ≡ e.target = ap (λ (x : ℕ × U256). x.1) both in
    Epoch_eq d e (ap (λ (x : ℕ × U256). x.0) both) targets
      (value-injective d.work e.work fits fits' (work ∙ rw targets (sym work')))

State_eq :
    (t u : State)
    → t.header ≡ u.header
    → t.block_hash ≡ u.block_hash
    → t.genesis_hash ≡ u.genesis_hash
    → t.current_nbits ≡ u.current_nbits
    → t.height ≡ u.height
    → t.chain_work ≡ u.chain_work
    → t.current_work ≡ u.current_work
    → t.current_target ≡ u.current_target
    → t.epoch_start_timestamp ≡ u.epoch_start_timestamp
    → t.timestamps ≡ u.timestamps
    → t ≡ u
State_eq t u a b c d e f g h i j = rw (a, b, c, d, e, f, g, h, i, j) refl

module _ (hash_header : Header → List ℕ) where
  Accepts-accept :
      (s t : State) (h : NewHeader) (a : Accepts hash_header s h t)
      → t
        ≡ accept s
            (block_of hash_header s a.epoch h)
            (hash_header (block_of hash_header s a.epoch h))
            a.epoch
  unfolding assign_state into_header
  Accepts-accept s t h a =
      State_eq t
        (accept s (block_of hash_header s a.epoch h)
          (hash_header (block_of hash_header s a.epoch h)) a.epoch)
        a.header a.block_hash a.genesis_hash a.current_nbits a.height
        (value-injective t.chain_work (U256.add s.chain_work a.epoch.work) a.work_fits
          (add-IsU256 s.chain_work a.epoch.work)
          (a.work_added ∙ sym (value-add s.chain_work a.epoch.work)))
        a.current_work a.current_target a.epoch_start a.timestamps

  -- A header leads to one state.
  Accepts-unique :
      (s t u : State) (h : NewHeader)
      → Accepts hash_header s h t
      → Accepts hash_header s h u
      → t ≡ u
  Accepts-unique s t u h a b =
      Accepts-accept s t h a
      ∙ ap
          (λ (e : Epoch).
            accept s (block_of hash_header s e h) (hash_header (block_of hash_header s e h)) e)
          (Difficulty-unique s a.epoch b.epoch a.difficulty b.difficulty)
      ∙ sym (Accepts-accept s u h b)

  Accepts-Violates :
      (s t : State) (h : NewHeader) (c : ValidationErrorCode)
      → Accepts hash_header s h t
      → Violates hash_header s h c
      → ⊥
  Accepts-Violates s t h _ a (too_old p) = omega (arith, a.after_median)
  Accepts-Violates s t h _ a (too_easy e d p) =
      let small : value (U256.from_le_bytes (hash_header (block_of hash_header s e h)))
          ≤ value e.target =
        subst
          (λ (x : Epoch).
            value (U256.from_le_bytes (hash_header (block_of hash_header s x h))) ≤ value x.target)
          (Difficulty-unique s a.epoch e a.difficulty d) a.proof_of_work in
      omega arith

  -- What the rules allow, the specification does.
  Judged-next :
      (s t : State) (h : NewHeader) (b : Round State)
      → Judged hash_header s h b
      → Accepts hash_header s h t
      → b ≡ next t
  Judged-next s t h _ (allowed u a i) accepted = ap next (Accepts-unique s u t h a accepted)
  Judged-next s t h _ (refused f v p q) accepted =
      absurd (Accepts-Violates s t h f.error_code accepted v)

  -- A state that the rules lead to is valid.
  pub Accepts-IsState :
      (s t : State) (h : NewHeader) → IsState s → Accepts hash_header s h t → IsState t
  Accepts-IsState s t h i a =
      let (e, _, d, fits, bound) = active_epoch_lem s i in
      let target : t.current_target ≡ e.target =
        a.current_target
        ∙ ap (λ (x : Epoch). x.target) (Difficulty-unique s a.epoch e a.difficulty d) in
      record {
        window_full =
            ap length a.timestamps ∙ length-set s.timestamps _ h.timestamp ∙ i.window_full;
        target_fits = rw target fits;
        target_bound = rw target bound;
      }

  eager_loop_complete :
      (s t : State) (hs : List NewHeader)
      → IsHash hash_header
      → IsState s
      → Follows hash_header s hs t
      → eager_loop hash_header s hs (true_medians hash_header s hs) ≡ returned (t, ok tt)
  unfolding eager_loop true_medians
  eager_loop_complete s _ _ hashes i (done _) = refl
  eager_loop_complete s t _ hashes i (step {u = u} {h = h} {hs = hs} a follows) =
      let e =
        Judged-next s u h (eager_header hash_header s h (median_time_past s))
          (eager_header_lem hash_header s h hashes i) a in
      rw (e, eager_loop, e) (eager_loop_complete u t hs hashes (Accepts-IsState s u h i a) follows)

-- For a hash of 32 bytes, from a valid state whose height is a `u32`: every segment of headers that
-- the rules allow is accepted with the true medians as hints, and leads to the state that they name.
pub apply_headers_complete :
    (hash_header : Header → List ℕ) (s t : State) (headers : List NewHeader)
    → IsHash hash_header
    → IsState s
    → s.height < 2 ^ 32
    → Follows hash_header s headers t
    → apply_headers hash_header s headers (true_medians hash_header s headers) ≡ returned (t, ok tt)
apply_headers_complete hash_header s t headers hashes i small follows =
    apply_headers_refines hash_header s headers (true_medians hash_header s headers) small
      (sym (length-true_medians hash_header s headers))
    ∙ eager_loop_complete hash_header s t headers hashes i follows
