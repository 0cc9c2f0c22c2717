-- ===== src/Common/Memory.antt =====
-- Ranges of a list: writing over a range, and reading one, as memcpy does on a buffer.
use Prim.Native.Nat.{ℕ, zero, suc, ◌+◌, ◌≤◌}
use mathlib.Core.Path.{◌≡◌, refl, ap}
use mathlib.Core.List.{List, [], ◌∷◌, ◌++◌}
use native.Mathlib.Omega.{arith}
use sylar.Common.Lists.{length, take, drop}

module _ {ℓ} {A : Type ℓ} where
  -- Elements that fall past the end are dropped.
  abbrev pub overwrite : List A → ℕ → List A → List A
  overwrite [] p ds = []
  overwrite (x ∷ xs) (suc p) ds = x ∷ overwrite xs p ds
  overwrite (x ∷ xs) zero [] = x ∷ xs
  overwrite (x ∷ xs) zero (d ∷ ds) = d ∷ overwrite xs zero ds

  abbrev pub slice : List A → ℕ → ℕ → List A
  slice xs p n = take n (drop p xs)

  pub length-overwrite :
      (xs : List A) (p : ℕ) (ds : List A) → length (overwrite xs p ds) ≡ length xs
  length-overwrite [] p ds = refl
  length-overwrite (x ∷ xs) (suc p) ds = ap suc (length-overwrite xs p ds)
  length-overwrite (x ∷ xs) zero [] = refl
  length-overwrite (x ∷ xs) zero (d ∷ ds) = ap suc (length-overwrite xs zero ds)

  pub overwrite-nil : (xs : List A) (p : ℕ) → overwrite xs p [] ≡ xs
  overwrite-nil [] p = refl
  overwrite-nil (x ∷ xs) zero = refl
  overwrite-nil (x ∷ xs) (suc p) = ap (◌∷◌ x) (overwrite-nil xs p)

  -- Two adjacent writes are one.
  pub overwrite-overwrite :
      (xs : List A) (p q : ℕ) (us vs : List A)
      → q ≡ p + length us
      → overwrite (overwrite xs p us) q vs ≡ overwrite xs p (us ++ vs)
  overwrite-overwrite [] p q us vs e = refl
  overwrite-overwrite (x ∷ xs) (suc p) zero us vs e = absurd (omega arith)
  overwrite-overwrite (x ∷ xs) (suc p) (suc q) us vs e =
      ap (◌∷◌ x) (overwrite-overwrite xs p q us vs (omega arith))
  overwrite-overwrite (x ∷ xs) zero zero [] vs e = refl
  overwrite-overwrite (x ∷ xs) zero (suc q) [] vs e = absurd (omega arith)
  overwrite-overwrite (x ∷ xs) zero zero (a ∷ us) vs e = absurd (omega arith)
  overwrite-overwrite (x ∷ xs) zero (suc q) (a ∷ us) vs e =
      ap (◌∷◌ a) (overwrite-overwrite xs zero q us vs (omega arith))

  -- A write that stays inside the first part of a concatenation.
  pub overwrite-append_left :
      (xs ys : List A) (p : ℕ) (ds : List A)
      → p + length ds ≤ length xs
      → overwrite (xs ++ ys) p ds ≡ overwrite xs p ds ++ ys
  overwrite-append_left [] ys zero [] h = overwrite-nil ys 0
  overwrite-append_left [] ys zero (d ∷ ds) h = absurd (omega arith)
  overwrite-append_left [] ys (suc p) ds h = absurd (omega arith)
  overwrite-append_left (x ∷ xs) ys (suc p) ds h =
      ap (◌∷◌ x) (overwrite-append_left xs ys p ds (omega arith))
  overwrite-append_left (x ∷ xs) ys zero [] h = refl
  overwrite-append_left (x ∷ xs) ys zero (d ∷ ds) h =
      ap (◌∷◌ d) (overwrite-append_left xs ys zero ds (omega arith))

  -- A write behind the first part.
  pub overwrite-append_right :
      (xs ys : List A) (p q : ℕ) (ds : List A)
      → p ≡ length xs + q
      → overwrite (xs ++ ys) p ds ≡ xs ++ overwrite ys q ds
  overwrite-append_right [] ys p q ds e =
      let e' : p ≡ q = omega arith in ap (λ (t : ℕ). overwrite ys t ds) e'
  overwrite-append_right (x ∷ xs) ys zero q ds e = absurd (omega arith)
  overwrite-append_right (x ∷ xs) ys (suc p) q ds e =
      ap (◌∷◌ x) (overwrite-append_right xs ys p q ds (omega arith))

  pub length-slice : (xs : List A) (p n : ℕ) → p + n ≤ length xs → length (slice xs p n) ≡ n
  length-slice xs zero zero h = refl
  length-slice [] zero (suc n) h = absurd (omega arith)
  length-slice (x ∷ xs) zero (suc n) h = ap suc (length-slice xs zero n (omega arith))
  length-slice [] (suc p) n h = absurd (omega arith)
  length-slice (x ∷ xs) (suc p) n h = length-slice xs p n (omega arith)

  pub slice-append_left :
      (xs ys : List A) (p n : ℕ) → p + n ≤ length xs → slice (xs ++ ys) p n ≡ slice xs p n
  slice-append_left xs ys zero zero h = refl
  slice-append_left [] ys zero (suc n) h = absurd (omega arith)
  slice-append_left (x ∷ xs) ys zero (suc n) h =
      ap (◌∷◌ x) (slice-append_left xs ys zero n (omega arith))
  slice-append_left [] ys (suc p) n h = absurd (omega arith)
  slice-append_left (x ∷ xs) ys (suc p) n h = slice-append_left xs ys p n (omega arith)

  pub slice-append_right :
      (xs ys : List A) (p q n : ℕ) → p ≡ length xs + q → slice (xs ++ ys) p n ≡ slice ys q n
  slice-append_right [] ys p q n e = let e' : p ≡ q = omega arith in ap (λ (t : ℕ). slice ys t n) e'
  slice-append_right (x ∷ xs) ys zero q n e = absurd (omega arith)
  slice-append_right (x ∷ xs) ys (suc p) q n e = slice-append_right xs ys p q n (omega arith)

  -- Two adjacent reads are one.
  pub slice-slice :
      (xs : List A) (p q m n : ℕ)
      → q ≡ p + m
      → p + m ≤ length xs
      → slice xs p m ++ slice xs q n ≡ slice xs p (m + n)
  slice-slice xs zero zero zero n e h = ap (λ (t : ℕ). slice xs 0 t) (omega arith)
  slice-slice xs zero (suc q) zero n e h = absurd (omega arith)
  slice-slice [] zero q (suc m) n e h = absurd (omega arith)
  slice-slice (x ∷ xs) zero zero (suc m) n e h = absurd (omega arith)
  slice-slice (x ∷ xs) zero (suc q) (suc m) n e h =
      rw (suc_plus m n) (ap (◌∷◌ x) (slice-slice xs zero q m n (omega arith) (omega arith)))
    where
      suc_plus : (a b : ℕ) → suc a + b ≡ suc (a + b)
      suc_plus a b = omega arith
  slice-slice [] (suc p) q m n e h = absurd (omega arith)
  slice-slice (x ∷ xs) (suc p) zero m n e h = absurd (omega arith)
  slice-slice (x ∷ xs) (suc p) (suc q) m n e h = slice-slice xs p q m n (omega arith) (omega arith)

  -- What was written is read back.
  pub slice-overwrite :
      (xs : List A) (p : ℕ) (ds : List A)
      → p + length ds ≤ length xs
      → slice (overwrite xs p ds) p (length ds) ≡ ds
  slice-overwrite xs zero [] h = refl
  slice-overwrite [] zero (d ∷ ds) h = absurd (omega arith)
  slice-overwrite (x ∷ xs) zero (d ∷ ds) h = ap (◌∷◌ d) (slice-overwrite xs zero ds (omega arith))
  slice-overwrite [] (suc p) ds h = absurd (omega arith)
  slice-overwrite (x ∷ xs) (suc p) ds h = slice-overwrite xs p ds (omega arith)

  -- A write leaves what lies before it alone.
  pub slice-overwrite_before :
      (xs : List A) (p n q : ℕ) (ds : List A)
      → p + n ≤ q
      → slice (overwrite xs q ds) p n ≡ slice xs p n
  slice-overwrite_before xs zero zero q ds h = refl
  slice-overwrite_before [] zero (suc n) q ds h = refl
  slice-overwrite_before (x ∷ xs) zero (suc n) zero ds h = absurd (omega arith)
  slice-overwrite_before (x ∷ xs) zero (suc n) (suc q) ds h =
      ap (◌∷◌ x) (slice-overwrite_before xs zero n q ds (omega arith))
  slice-overwrite_before [] (suc p) n q ds h = refl
  slice-overwrite_before (x ∷ xs) (suc p) n zero ds h = absurd (omega arith)
  slice-overwrite_before (x ∷ xs) (suc p) n (suc q) ds h =
      slice-overwrite_before xs p n q ds (omega arith)
