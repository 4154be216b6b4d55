-- ===== src/Bytes/Exact.antt =====
-- Reading a value from exactly its bytes.
use zkpow.Prelude.{ℕ, ◌≡◌, ◌≢◌, refl, arith, false, List, ok, err, length, ◌==◌, ==_iff}
use zkpow.Bytes.{invalid_length, copy_from_bytes, check_exact_len}

module _ {A : Type 0} (size : ℕ) (at : List ℕ → A) (bytes : List ℕ) where
  pub copy_from_bytes_ok : length bytes ≡ size → copy_from_bytes size at bytes ≡ ok (at bytes)
  unfolding copy_from_bytes check_exact_len
  copy_from_bytes_ok h = rw (copy_from_bytes, (==_iff (length bytes) size).1 h) refl

  pub copy_from_bytes_err :
      length bytes ≢ size → copy_from_bytes size at bytes ≡ err (invalid_length size (length bytes))
  unfolding copy_from_bytes check_exact_len
  copy_from_bytes_err h =
      let bad : (length bytes == size) ≡ false = ground arith in rw (copy_from_bytes, bad) refl
