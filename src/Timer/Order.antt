-- ===== src/Timer/Order.antt =====
-- The order of the comparator, and what the operations of the set do to a set in that order.
use sylar.Common.{
  ℕ, ◌≤◌, ◌<◌, ◌≡◌, refl, sym, ap, ◌∙◌, arith, ◌⊎◌, inl, inr, Bool, true, false, not, ◌&&◌, ◌||◌,
  List, [], ◌∷◌, ◌==◌, Bool-cases,
}
use sylar.Timer.{Timer, Heap, update, comparator, less, equivalent, set_insert, set_find, set_erase}

-- By the time of expiry, and by address at the same time.
abbrev pub Lt : Heap → ℕ → ℕ → Type 0
Lt h a b = ((h a).next < (h b).next) ⊎ (((h a).next ≡ (h b).next) × (a < b))

abbrev pub Above : Heap → ℕ → List ℕ → Type 0
Above h x [] = Unit
Above h x (y ∷ ys) = Lt h x y × Above h x ys

abbrev pub Sorted : Heap → List ℕ → Type 0
Sorted h [] = Unit
Sorted h (y ∷ ys) = Above h y ys × Sorted h ys

abbrev pub contains : List ℕ → ℕ → Bool
contains [] a = false
contains (x ∷ xs) a = (x == a) || contains xs a

pub less-Lt : (h : Heap) (a b : ℕ) → less h a b ≡ true → Lt h a b
unfolding comparator
less-Lt h a b e = ground arith

pub less_either : (h : Heap) (a b : ℕ) → less h a b ≡ false → less h b a ≡ false → a ≡ b
unfolding comparator
less_either h a b e f = ground arith

pub less_irrefl : (h : Heap) (a : ℕ) → less h a a ≡ false
unfolding comparator
less_irrefl h a = ground arith

pub not_less-next : (h : Heap) (a b : ℕ) → less h a b ≡ false → (h b).next ≤ (h a).next
unfolding comparator
not_less-next h a b e = ground arith

pub ==-refl : (a : ℕ) → (a == a) ≡ true
==-refl a = ground arith

-- Two timers are the same to the set when they are one object.
pub equivalent-== : (h : Heap) (a b : ℕ) → equivalent h a b ≡ (a == b)
unfolding comparator
equivalent-== h a b = ground arith

pub Lt-trans : (h : Heap) (a b c : ℕ) → Lt h a b → Lt h b c → Lt h a c
Lt-trans h a b c (inl p) (inl q) = inl (omega arith)
Lt-trans h a b c (inl p) (inr (q, r)) = inl (omega arith)
Lt-trans h a b c (inr (p, s)) (inl q) = inl (omega arith)
Lt-trans h a b c (inr (p, s)) (inr (q, r)) = inr (omega arith, omega arith)

pub Above-trans : (h : Heap) (a b : ℕ) (l : List ℕ) → Lt h a b → Above h b l → Above h a l
Above-trans h a b [] p q = tt
Above-trans h a b (y ∷ ys) p (q, qs) = (Lt-trans h a b y p q, Above-trans h a b ys p qs)

pub Above-contains :
    (h : Heap) (a b : ℕ) (l : List ℕ) → Above h a l → contains l b ≡ true → Lt h a b
Above-contains h a b [] p e = cc
Above-contains h a b (y ∷ ys) (p, ps) e = elim (Bool-cases (y == b)) [
  | inl f ↦ let same : y ≡ b = ground (arith, f) in rw same at p
  | inr f ↦ Above-contains h a b ys ps (rw f at e)
]

pub Above-absent : (h : Heap) (a : ℕ) (l : List ℕ) → Above h a l → contains l a ≡ false
Above-absent h a l p = elim (Bool-cases (contains l a)) [
  | inl e ↦
      let lt = Above-contains h a a l p e in
      absurd (elim lt [ inl q ↦ omega arith | inr (q, r) ↦ omega arith ])
  | inr e ↦ e
]

pub Above-set_insert :
    (h : Heap) (a x : ℕ) (l : List ℕ) → Lt h a x → Above h a l → Above h a (set_insert h x l)
unfolding set_insert
Above-set_insert h a x [] p q = (p, tt)
Above-set_insert h a x (y ∷ ys) p (q, qs) = elim (Bool-cases (less h x y)) [
  | inl e ↦ rw e (p, (q, qs))
  | inr e ↦ rw e (elim (Bool-cases (less h y x)) [
    | inl f ↦ rw f (q, Above-set_insert h a x ys p qs)
    | inr f ↦ rw f (q, qs)
  ])
]

pub set_insert-Sorted : (h : Heap) (x : ℕ) (l : List ℕ) → Sorted h l → Sorted h (set_insert h x l)
unfolding set_insert
set_insert-Sorted h x [] s = (tt, tt)
set_insert-Sorted h x (y ∷ ys) (p, s) = elim (Bool-cases (less h x y)) [
  | inl e ↦ let lt = less-Lt h x y e in rw e ((lt, Above-trans h x y ys lt p), (p, s))
  | inr e ↦ rw e (elim (Bool-cases (less h y x)) [
    | inl f ↦ rw f (Above-set_insert h y x ys (less-Lt h y x f) p, set_insert-Sorted h x ys s)
    | inr f ↦ rw f (p, s)
  ])
]

pub contains-set_insert :
    (h : Heap) (x : ℕ) (l : List ℕ) (a : ℕ)
    → contains (set_insert h x l) a ≡ ((x == a) || contains l a)
unfolding set_insert
contains-set_insert h x [] a = refl
contains-set_insert h x (y ∷ ys) a = elim (Bool-cases (less h x y)) [
  | inl e ↦ rw e refl
  | inr e ↦ rw e (elim (Bool-cases (less h y x)) [
    | inl f ↦ rw f (rw (contains-set_insert h x ys a) (ground arith))
    | inr f ↦ rw f (let same = less_either h x y e f in rw same (ground arith))
  ])
]

pub set_find-contains : (h : Heap) (x : ℕ) (l : List ℕ) → set_find h x l ≡ contains l x
unfolding set_find
set_find-contains h x [] = refl
set_find-contains h x (y ∷ ys) = rw (equivalent-== h x y, set_find-contains h x ys) (ground arith)

pub Above-set_erase : (h : Heap) (a x : ℕ) (l : List ℕ) → Above h a l → Above h a (set_erase h x l)
unfolding set_erase
Above-set_erase h a x [] q = tt
Above-set_erase h a x (y ∷ ys) (q, qs) = elim (Bool-cases (equivalent h x y)) [
  | inl e ↦ rw e qs
  | inr e ↦ rw e (q, Above-set_erase h a x ys qs)
]

pub set_erase-Sorted : (h : Heap) (x : ℕ) (l : List ℕ) → Sorted h l → Sorted h (set_erase h x l)
unfolding set_erase
set_erase-Sorted h x [] s = tt
set_erase-Sorted h x (y ∷ ys) (p, s) = elim (Bool-cases (equivalent h x y)) [
  | inl e ↦ rw e s
  | inr e ↦ rw e (Above-set_erase h y x ys p, set_erase-Sorted h x ys s)
]

pub contains-set_erase :
    (h : Heap) (x : ℕ) (l : List ℕ) (a : ℕ)
    → Sorted h l
    → contains (set_erase h x l) a ≡ (not (x == a) && contains l a)
unfolding set_erase
contains-set_erase h x [] a s = ground arith
contains-set_erase h x (y ∷ ys) a (p, s) = elim (Bool-cases (x == y)) [
  | inl e ↦
      let same : x ≡ y = ground (arith, e) in
      let gone = Above-absent h y ys p in
      rw (equivalent-== h x y, e)
        (elim (Bool-cases (y == a)) [
          | inl f ↦
              let same' : y ≡ a = ground (arith, f) in
              rw (same, f) (ap (contains ys) (sym same') ∙ gone)
          | inr f ↦ rw (same, f) refl
        ])
  | inr e ↦ rw (equivalent-== h x y, e) (rw (contains-set_erase h x ys a s) (ground arith))
]

-- Only the times of the set's own timers matter.
abbrev pub SameNext : Heap → Heap → List ℕ → Type 0
SameNext h h' l = (a : ℕ) → contains l a ≡ true → (h' a).next ≡ (h a).next

pub tail-SameNext : (h h' : Heap) (y : ℕ) (ys : List ℕ) → SameNext h h' (y ∷ ys) → SameNext h h' ys
tail-SameNext h h' y ys same a e = same a (rw e (ground arith))

pub Above-SameNext :
    (h h' : Heap) (x : ℕ) (l : List ℕ)
    → (h' x).next ≡ (h x).next
    → SameNext h h' l
    → Above h x l
    → Above h' x l
Above-SameNext h h' x [] e same p = tt
Above-SameNext h h' x (y ∷ ys) e same (p, ps) =
    let f = same y (rw (==-refl y) refl) in
    (rw (e, f) p, Above-SameNext h h' x ys e (tail-SameNext h h' y ys same) ps)

pub Sorted-SameNext : (h h' : Heap) (l : List ℕ) → SameNext h h' l → Sorted h l → Sorted h' l
Sorted-SameNext h h' [] same s = tt
Sorted-SameNext h h' (y ∷ ys) same (p, s) =
    let rest = tail-SameNext h h' y ys same in
    (Above-SameNext h h' y ys (same y (rw (==-refl y) refl)) rest p, Sorted-SameNext h h' ys rest s)

-- A timer outside the set may change freely.
pub update-SameNext :
    (h : Heap) (x : ℕ) (t : Timer) (l : List ℕ) → contains l x ≡ false → SameNext h (update h x t) l
update-SameNext h x t l gone a e = elim (Bool-cases (a == x)) [
  | inl f ↦ let same : a ≡ x = ground (arith, f) in absurd (cc)
  | inr f ↦ rw f refl
]

pub Lt-next : (h : Heap) (a b : ℕ) → Lt h a b → (h a).next ≤ (h b).next
Lt-next h a b (inl p) = omega arith
Lt-next h a b (inr (p, q)) = omega arith
