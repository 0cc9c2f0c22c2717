-- ===== src/Address/Order.antt =====
-- The order and the equality of addresses, which compare the bytes of their sockaddr.
use sylar.Common.{
  ℕ, zero, suc, min, ◌≡◌, refl, sym, ap, ◌∙◌, arith, inl, inr, Bool, true, false, not, ◌&&◌, List,
  [], ◌∷◌, length, ltb, ◌==◌, if◌then◌else◌, Bool-cases,
}
use sylar.Common.Text.{text_eq, text_eq_path}

-- The sign of memcmp on the first n bytes of both.
pub data Sign : Type 0 where
  negative : Sign
  null : Sign
  positive : Sign

unfoldable pub memcmp : ℕ → List ℕ → List ℕ → Sign
memcmp zero xs ys = null
memcmp (suc n) [] ys = null
memcmp (suc n) (x ∷ xs) [] = null
memcmp (suc n) (x ∷ xs) (y ∷ ys) =
    let rest = memcmp n xs ys in if ltb x y then negative else (if ltb y x then positive else rest)

abbrev pub less_by : Sign → (length_l length_r : ℕ) → Bool
less_by negative length_l length_r = true
less_by positive length_l length_r = false
less_by null length_l length_r = ltb length_l length_r

-- operator <, on the bytes of getAddr, as many as getAddrLen says.
unfoldable pub address_less : List ℕ → List ℕ → Bool
unfolding memcmp
address_less xs ys = less_by (memcmp (min (length xs) (length ys)) xs ys) (length xs) (length ys)

abbrev is_null : Sign → Bool
is_null negative = false
is_null null = true
is_null positive = false

unfoldable pub address_eq : List ℕ → List ℕ → Bool
unfolding memcmp
address_eq xs ys = (length xs == length ys) && is_null (memcmp (length xs) xs ys)

unfoldable pub address_ne : List ℕ → List ℕ → Bool
unfolding address_eq
address_ne xs ys = not (address_eq xs ys)

-- The order of a dictionary.
abbrev pub before : List ℕ → List ℕ → Bool
before xs [] = false
before [] (y ∷ ys) = true
before (x ∷ xs) (y ∷ ys) = if ltb x y then true else (if ltb y x then false else before xs ys)

less_by-memcmp :
    (n : ℕ) (xs ys : List ℕ)
    → n ≡ min (length xs) (length ys)
    → less_by (memcmp n xs ys) (length xs) (length ys) ≡ before xs ys
unfolding memcmp
less_by-memcmp zero xs [] e = ground arith
less_by-memcmp zero [] (y ∷ ys) e = ground arith
less_by-memcmp zero (x ∷ xs) (y ∷ ys) e = absurd (omega arith)
less_by-memcmp (suc n) [] ys e = absurd (omega arith)
less_by-memcmp (suc n) (x ∷ xs) [] e = absurd (omega arith)
less_by-memcmp (suc n) (x ∷ xs) (y ∷ ys) e =
    let rec = less_by-memcmp n xs ys (omega arith) in
    elim (Bool-cases (ltb x y)) [
      | inl f ↦ rw f refl
      | inr f ↦ rw f (elim (Bool-cases (ltb y x)) [
        | inl g ↦ rw g refl
        | inr g ↦ rw g (later (memcmp n xs ys) (length xs) (length ys) ∙ rec)
      ])
    ]
  where
    later : (s : Sign) (a b : ℕ) → less_by s (suc a) (suc b) ≡ less_by s a b
    later negative a b = refl
    later positive a b = refl
    later null a b = ground arith

is_null-memcmp :
    (xs ys : List ℕ) → length xs ≡ length ys → is_null (memcmp (length xs) xs ys) ≡ text_eq xs ys
unfolding memcmp
is_null-memcmp [] [] e = refl
is_null-memcmp [] (y ∷ ys) e = absurd (omega arith)
is_null-memcmp (x ∷ xs) [] e = absurd (omega arith)
is_null-memcmp (x ∷ xs) (y ∷ ys) e =
    let rec = is_null-memcmp xs ys (omega arith) in
    elim (Bool-cases (ltb x y)) [
      | inl f ↦ let differ : (x == y) ≡ false = ground (arith, f) in rw (f, differ) refl
      | inr f ↦ rw f (elim (Bool-cases (ltb y x)) [
        | inl g ↦ let differ : (x == y) ≡ false = ground (arith, g) in rw (g, differ) refl
        | inr g ↦ let same : (x == y) ≡ true = ground (arith, f, g) in rw (g, same) rec
      ])
    ]

lengths_of : (xs ys : List ℕ) → (length xs == length ys) ≡ false → text_eq xs ys ≡ false
lengths_of xs ys e = elim (Bool-cases (text_eq xs ys)) [
  | inl f ↦
      let path = text_eq_path xs ys f in
      let same : (length xs == length ys) ≡ true = rw path (ground arith) in
      absurd (let bad : true ≡ false = sym same ∙ e in cc)
  | inr f ↦ f
]

address_eq-text_eq : (xs ys : List ℕ) → address_eq xs ys ≡ text_eq xs ys
unfolding address_eq
address_eq-text_eq xs ys = elim (Bool-cases (length xs == length ys)) [
  | inl e ↦ rw e (is_null-memcmp xs ys (ground (arith, e)))
  | inr e ↦ rw e (sym (lengths_of xs ys e))
]

less_lem : (xs ys : List ℕ) → address_less xs ys ≡ before xs ys
unfolding address_less
less_lem xs ys = less_by-memcmp (min (length xs) (length ys)) xs ys refl

before_trans : (xs ys zs : List ℕ) → before xs ys ≡ true → before ys zs ≡ true → before xs zs ≡ true
before_trans xs [] zs e f = absurd cc
before_trans xs (y ∷ ys) [] e f = absurd cc
before_trans [] (y ∷ ys) (z ∷ zs) e f = refl
before_trans (x ∷ xs) (y ∷ ys) (z ∷ zs) e f = ground (arith, before_trans xs ys zs)

before_total : (xs ys : List ℕ) → text_eq xs ys ≡ (not (before xs ys) && not (before ys xs))
before_total [] [] = refl
before_total [] (y ∷ ys) = refl
before_total (x ∷ xs) [] = refl
before_total (x ∷ xs) (y ∷ ys) = ground (arith, before_total xs ys)

-- operator < is the order of a dictionary on the bytes of the addresses, whatever their lengths; operator == holds
-- exactly when neither is less, which is when their bytes are the same; and operator != is its opposite.
pub address_less-before :
    (xs ys : List ℕ)
    → (address_less xs ys ≡ before xs ys)
      × (address_eq xs ys ≡ (not (address_less xs ys) && not (address_less ys xs)))
      × (address_eq xs ys ≡ text_eq xs ys)
      × (address_ne xs ys ≡ not (text_eq xs ys))
unfolding address_ne
address_less-before xs ys =
    let here = less_lem xs ys in
    let back = less_lem ys xs in
    (
      here,
      rw (here, back) (address_eq-text_eq xs ys ∙ before_total xs ys),
      address_eq-text_eq xs ys,
      ap not (address_eq-text_eq xs ys),
    )

-- operator < is transitive.
address_less_trans :
    (xs ys zs : List ℕ)
    → address_less xs ys ≡ true
    → address_less ys zs ≡ true
    → address_less xs zs ≡ true
address_less_trans xs ys zs e f =
    less_lem xs zs ∙ before_trans xs ys zs (sym (less_lem xs ys) ∙ e) (sym (less_lem ys zs) ∙ f)
