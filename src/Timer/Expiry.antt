-- ===== src/Timer/Expiry.antt =====
-- The search of `listExpiredCb` splits the set into the timers that are due and those that are late.
use sylar.Common.{
  ℕ, ◌≤◌, ◌<◌, ◌≡◌, refl, ap, arith, inl, inr, Bool, true, false, not, ◌||◌, none, List, [], ◌∷◌,
  leb, ◌==◌, if◌then◌else◌, Bool-cases,
}
use sylar.Timer.{Heap, update, less, skip_equal, split_expired}
use sylar.Timer.Order.{
  Above, Sorted, Lt-next, contains, Above-contains, ==-refl, less-Lt, not_less-next,
}

abbrev pub filter : (ℕ → Bool) → List ℕ → List ℕ
filter f [] = []
filter f (x ∷ xs) = if f x then x ∷ filter f xs else filter f xs

-- After a rollover of the clock every timer is due, else those whose time has come.
abbrev pub is_due : Bool → Heap → ℕ → ℕ → Bool
is_due rollover h now a = rollover || leb (h a).next now

abbrev pub is_late : Bool → Heap → ℕ → ℕ → Bool
is_late rollover h now a = not (is_due rollover h now a)

-- Nothing is due behind a timer that is late.
pub filter-is_due_none :
    (h : Heap) (now : ℕ) (x : ℕ) (l : List ℕ)
    → now < (h x).next
    → Above h x l
    → (filter (is_due false h now) l ≡ []) × (filter (is_late false h now) l ≡ l)
filter-is_due_none h now x [] late p = (refl, refl)
filter-is_due_none h now x (y ∷ ys) late (p, ps) =
    let next = Lt-next h x y p in
    let not_yet : leb (h y).next now ≡ false = ground (arith, late, next) in
    let (none_due, all_late) = filter-is_due_none h now x ys late ps in
    (rw (not_yet, none_due) refl, rw (not_yet, all_late) refl)

skip_equal_lem :
    (h : Heap) (now : ℕ) (l : List ℕ)
    → Sorted h l
    → ((a : ℕ) → contains l a ≡ true → now ≤ (h a).next)
    → skip_equal h now l ≡ (filter (is_due false h now) l, filter (is_late false h now) l)
unfolding skip_equal
skip_equal_lem h now [] s from = refl
skip_equal_lem h now (y ∷ ys) (p, s) from =
    let at_least = from y (rw (==-refl y) refl) in
    elim (Bool-cases ((h y).next == now)) [
      | inl e ↦
          let due : leb (h y).next now ≡ true = ground (arith, e) in
          let later = skip_equal_lem h now ys s (λ a f. from a (rw f (ground arith))) in
          rw (e, due, later) refl
      | inr e ↦
          let not_yet : leb (h y).next now ≡ false = ground (arith, e, at_least) in
          let (none_due, all_late) =
            filter-is_due_none h now y ys (ground (arith, e, at_least)) p in
          rw (e, not_yet, none_due, all_late) refl
    ]

-- The heap with the timer of this moment that the search is for.
abbrev probe : ℕ → ℕ → Heap → Heap
probe p now h = update h p (record { recurring = false; ms = 0; next = now; cb = none })

before_probe :
    (p now : ℕ) (h : Heap) (y : ℕ)
    → (y == p) ≡ false
    → less (probe p now h) y p ≡ true
    → (h y).next ≤ now
before_probe p now h y other e =
    let before = Lt-next (probe p now h) y p (less-Lt (probe p now h) y p e) in
    rw (other, ==-refl p) at before

from_probe :
    (p now : ℕ) (h : Heap) (y : ℕ)
    → (y == p) ≡ false
    → less (probe p now h) y p ≡ false
    → now ≤ (h y).next
from_probe p now h y other e =
    let behind = not_less-next (probe p now h) y p e in rw (other, ==-refl p) at behind

-- The split of the set is a filter of it, although it is done by one search for a new timer.
split_expired_lem :
    (p now : ℕ) (h : Heap) (l : List ℕ)
    → Sorted h l
    → contains l p ≡ false
    → split_expired false p now h l
      ≡ (filter (is_due false h now) l, filter (is_late false h now) l)
unfolding split_expired
split_expired_lem p now h [] s gone = refl
split_expired_lem p now h (y ∷ ys) (q, s) gone = elim (Bool-cases (less (probe p now h) y p)) [
  | inl e ↦
      let due : leb (h y).next now ≡ true = ground (arith, before_probe p now h y other e) in
      rw (e, due)
        (ap (λ (r : List ℕ × List ℕ). (y ∷ r.0, r.1))
          (split_expired_lem p now h ys s (rw other at gone)))
  | inr e ↦
      let from = from_probe p now h y other e in
      rw e (skip_equal_lem h now (y ∷ ys) (q, s) (λ a inside. all_from from a inside))
]
  where
    other : (y == p) ≡ false
    other = ground (arith, gone)

    all_from : now ≤ (h y).next → (a : ℕ) → contains (y ∷ ys) a ≡ true → now ≤ (h a).next
    all_from from a inside = elim (Bool-cases (y == a)) [
      | inl f ↦ let same : y ≡ a = ground (arith, f) in rw same at from
      | inr f ↦
          let next = Lt-next h y a (Above-contains h y a ys q (rw f at inside)) in
          omega (arith, next)
    ]

pub split_expired_all :
    (rollover : Bool) (p now : ℕ) (h : Heap) (l : List ℕ)
    → Sorted h l
    → contains l p ≡ false
    → split_expired rollover p now h l
      ≡ (filter (is_due rollover h now) l, filter (is_late rollover h now) l)
split_expired_all false p now h l s gone = split_expired_lem p now h l s gone
split_expired_all true p now h l s gone = unfold split_expired in all l
  where
    all :
        (l : List ℕ)
        → ◌≡◌ {A = List ℕ × List ℕ}
            (l, [])
            (filter (is_due true h now) l, filter (is_late true h now) l)
    all [] = refl
    all (y ∷ ys) = ap (λ (r : List ℕ × List ℕ). (y ∷ r.0, r.1)) (all ys)
