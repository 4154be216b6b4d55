-- ===== src/Bytes/Chunks.antt =====
-- Slices of fixed-size values: what was written one value after the other is read back, and
-- buffers that are misaligned or of another length are refused.
use zkpow.Prelude.{
  ℕ, ◌*◌, ◌≡◌, refl, ap, ap₂, ◌∙◌, arith, List, [], ◌∷◌, ◌++◌, length, All, length-append,
  take-length_append, drop-length_append,
}
use zkpow.Bytes.{chunks}

module _ {A : Type 0} (size : ℕ) (layout : A → List ℕ) (at : List ℕ → A) where
  -- The values in memory, one after the other.
  abbrev pub serialized : List A → List ℕ
  serialized [] = []
  serialized (x ∷ xs) = layout x ++ serialized xs

  module _ {P : A → Type 0} (fixed : (x : A) → P x → length (layout x) ≡ size) where
    pub length-serialized : (xs : List A) → All P xs → length (serialized xs) ≡ length xs * size
    length-serialized [] h = omega arith
    length-serialized (x ∷ xs) (hx, hxs) =
        length-append (layout x) (serialized xs)
        ∙ omega (arith, fixed x hx, length-serialized xs hxs)

    pub chunks-serialized :
        (back : (x : A) → P x → at (layout x) ≡ x) (xs : List A)
        → All P xs
        → chunks size at (length xs) (serialized xs) ≡ xs
    unfolding chunks
    chunks-serialized back [] h = refl
    chunks-serialized back (x ∷ xs) (hx, hxs) =
        ap₂ ◌∷◌
          (ap at (take-length_append size (layout x) (serialized xs) (fixed x hx)) ∙ back x hx)
          (ap (chunks size at (length xs))
              (drop-length_append size (layout x) (serialized xs) (fixed x hx))
            ∙ chunks-serialized back xs hxs)
