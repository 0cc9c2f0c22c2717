-- ===== src/Common/Text.antt =====
-- Text as a list of character codes: equality, and decimal numerals.
use Prim.Native.Nat.{ℕ, zero, suc, ◌+◌, ◌/◌, ◌%◌}
use Prim.Native.Char.{code}
use Prim.Native.String.{String}
use mathlib.Core.Path.{◌≡◌, refl, sym, ap, ◌∙◌}
use mathlib.Core.Logic.{inl, inr}
use mathlib.Core.Bool.{Bool, true, false, ◌&&◌}
use mathlib.Core.List.{List, [], ◌∷◌, ◌++◌}
use native.Mathlib.Omega.{arith}
use sylar.Common.Tests.{ltb, ◌==◌, if◌then◌else◌, Bool-cases}

abbrev pub Text : Type 0
Text = List ℕ

-- A literal of the sources.
abbrev pub codes : String → Text
codes String.[] = []
codes (String.◌∷◌ c s) = code c ∷ codes s

abbrev pub text_eq : Text → Text → Bool
text_eq [] [] = true
text_eq [] (b ∷ bs) = false
text_eq (a ∷ xs) [] = false
text_eq (a ∷ xs) (b ∷ bs) = (a == b) && text_eq xs bs

pub text_eq_refl : (a : Text) → text_eq a a ≡ true
text_eq_refl [] = refl
text_eq_refl (a ∷ xs) = let same : (a == a) ≡ true = ground arith in rw (same, text_eq_refl xs) refl

pub text_eq_path : (a b : Text) → text_eq a b ≡ true → a ≡ b
text_eq_path [] [] e = refl
text_eq_path [] (b ∷ bs) e = cc
text_eq_path (a ∷ xs) [] e = cc
text_eq_path (a ∷ xs) (b ∷ bs) e = elim (Bool-cases (a == b)) [
  | inl f ↦
      let head : a ≡ b = ground (arith, f) in
      let tail = text_eq_path xs bs (rw f at e) in ap (λ x. x ∷ xs) head ∙ ap (λ r. b ∷ r) tail
  | inr f ↦ absurd (let bad : false ≡ true = rw f at e in cc)
]

pub text_eq_other : (u v w : Text) → text_eq u v ≡ false → text_eq u w ≡ true → text_eq v w ≡ false
text_eq_other u v w e f = elim (Bool-cases (text_eq v w)) [
  | inl g ↦
      let path : u ≡ v = text_eq_path u w f ∙ sym (text_eq_path v w g) in
      absurd (let bad : true ≡ false = sym (text_eq_refl u) ∙ ap (text_eq u) path ∙ e in cc)
  | inr g ↦ g
]

-- The numeral that `<<` prints; `fuel` digits are enough for a number below 10 ^ fuel.
abbrev pub decimal : (fuel n : ℕ) → Text
decimal zero n = []
decimal (suc fuel) n =
    let front = decimal fuel (n / 10) in
    if ltb n 10 then (48 + n) ∷ [] else front ++ ((48 + n % 10) ∷ [])
