-- ===== src/Timer/ListExpired.antt =====
-- `listExpiredCb` fires the timers that are due, and no others.
use sylar.Common.{
  ℕ, ◌≡◌, refl, sym, ◌∙◌, arith, inl, inr, Bool, true, false, not, ◌&&◌, ◌||◌, Option, List, [],
  ◌∷◌, map, ltb, leb, ◌==◌, if◌then◌else◌, Bool-cases,
}
use sylar.Timer.{Timer, TimerManager, Heap, fire, rolled_over, list_expired_cb}
use sylar.Timer.Order.{Above, Sorted, contains, Above-absent, ==-refl}
use sylar.Timer.Valid.{IsValid, is_some}
use sylar.Timer.Expiry.{filter, is_due, is_late, filter-is_due_none, split_expired_all}
use sylar.Timer.Firing.{Distinct, Apart, rearmed, Fired, fire-Fired}

-- The set falls into the timers that are due and those that are late.
contains-filter :
    (f : ℕ → Bool) (l : List ℕ) (b : ℕ) → contains (filter f l) b ≡ (f b && contains l b)
contains-filter f [] b = ground arith
contains-filter f (y ∷ ys) b = elim (Bool-cases (y == b)) [
  | inl e ↦
      let same : y ≡ b = ground (arith, e) in
      rw same (elim (Bool-cases (f b)) [
        | inl g ↦ rw (g, ==-refl b) refl
        | inr g ↦ rw (g, contains-filter f ys b, g) refl
      ])
  | inr e ↦ rw e (elim (Bool-cases (f y)) [
    | inl g ↦ rw (g, e, contains-filter f ys b) refl
    | inr g ↦ rw (g, contains-filter f ys b) refl
  ])
]

Above-filter : (h : Heap) (a : ℕ) (f : ℕ → Bool) (l : List ℕ) → Above h a l → Above h a (filter f l)
Above-filter h a f [] p = tt
Above-filter h a f (y ∷ ys) (p, ps) = elim (Bool-cases (f y)) [
  | inl g ↦ rw g (p, Above-filter h a f ys ps)
  | inr g ↦ rw g (Above-filter h a f ys ps)
]

filter-Sorted : (h : Heap) (f : ℕ → Bool) (l : List ℕ) → Sorted h l → Sorted h (filter f l)
filter-Sorted h f [] s = tt
filter-Sorted h f (y ∷ ys) (p, s) = elim (Bool-cases (f y)) [
  | inl g ↦ rw g (Above-filter h y f ys p, filter-Sorted h f ys s)
  | inr g ↦ rw g (filter-Sorted h f ys s)
]

Sorted-Distinct : (h : Heap) (l : List ℕ) → Sorted h l → Distinct l
Sorted-Distinct h [] s = tt
Sorted-Distinct h (y ∷ ys) (p, s) = (Above-absent h y ys p, Sorted-Distinct h ys s)

abbrev pub due : ℕ → TimerManager → ℕ → Bool
due now m a = is_due (rolled_over now m.previous_time) m.heap now a

abbrev late : ℕ → TimerManager → ℕ → Bool
late now m a = not (due now m a)

abbrev fired : ℕ → TimerManager → List (Option ℕ) × Heap × List ℕ
fired now m = fire now (filter (due now m) m.timers) m.heap (filter (late now m) m.timers)

-- What a call with the result `r` does to the manager m.
pub record FiresDue (now : ℕ) (m : TimerManager) (r : List (Option ℕ) × TimerManager) : Type 0 where
  pub cbs : r.0 ≡ map (λ a. (m.heap a).cb) (filter (due now m) m.timers)
  pub holds :
      (b : ℕ)
      → contains r.1.timers b ≡ (contains m.timers b && (not (due now m b) || (m.heap b).recurring))
  pub changed :
      (b : ℕ)
      → r.1.heap b
        ≡ (if contains m.timers b && due now m b then rearmed now (m.heap b) else m.heap b)

abbrev manager : Heap → List ℕ → Bool → ℕ → TimerManager
manager h l tickled previous = record {
  heap = h;
  timers = l;
  tickled = tickled;
  previous_time = previous;
}

abbrev Fires : ℕ → ℕ → TimerManager → Type 0
Fires p now m =
    (n : TimerManager) × (list_expired_cb p now m ≡ ((fired now m).0, n))
    × (n.heap ≡ (fired now m).1)
    × (n.timers ≡ (fired now m).2)

-- When the first timer is late, so are all.
none_due :
    (rollover : Bool) (now : ℕ) (h : Heap) (y : ℕ) (ys : List ℕ)
    → (not rollover && ltb now (h y).next) ≡ true
    → Above h y ys
    → (filter (is_due rollover h now) (y ∷ ys) ≡ [])
      × (filter (is_late rollover h now) (y ∷ ys) ≡ y ∷ ys)
none_due true now h y ys early p = cc
none_due false now h y ys early p =
    let not_yet : leb (h y).next now ≡ false = ground (arith, early) in
    let (no_due, all_late) = filter-is_due_none h now y ys (ground (arith, early)) p in
    (rw (not_yet, no_due) refl, rw (not_yet, all_late) refl)

-- All three returns are the loop on the due timers, with the late ones left.
list_expired_cb-fire :
    (p now : ℕ) (h : Heap) (l : List ℕ) (tickled : Bool) (previous : ℕ)
    → Sorted h l
    → contains l p ≡ false
    → Fires p now (manager h l tickled previous)
unfolding list_expired_cb
list_expired_cb-fire p now h [] tickled previous s gone =
    (manager h [] tickled previous, unfold fire in refl, unfold fire in refl, unfold fire in refl)
list_expired_cb-fire p now h (y ∷ ys) tickled previous s gone =
    elim (Bool-cases (not (rolled_over now previous) && ltb now (h y).next)) [
      | inl early ↦
          let (no_due, all_late) = none_due (rolled_over now previous) now h y ys early s.0 in
          (
            manager h (y ∷ ys) tickled now,
            rw (early, no_due) (unfold fire in refl),
            rw no_due (unfold fire in refl),
            rw no_due (unfold fire in sym all_late),
          )
      | inr later ↦
          let m = manager h (y ∷ ys) tickled previous in
          (
            manager (fired now m).1 (fired now m).2 tickled now,
            rw (later, split_expired_all (rolled_over now previous) p now h (y ∷ ys) s gone) refl,
            refl,
            refl,
          )
    ]

due-Apart :
    (now : ℕ) (m : TimerManager)
    → Apart (filter (due now m) m.timers) (filter (late now m) m.timers)
due-Apart now m b e =
    let is_in = sym (contains-filter (due now m) m.timers b) ∙ e in
    contains-filter (late now m) m.timers b ∙ ground (arith, is_in)

fired-Fired :
    (now : ℕ) (m : TimerManager)
    → IsValid m
    → Fired now m.heap (filter (due now m) m.timers) (filter (late now m) m.timers) (fired now m)
fired-Fired now m v =
    fire-Fired now (filter (due now m) m.timers) m.heap (filter (late now m) m.timers)
      (Sorted-Distinct m.heap _ (filter-Sorted m.heap (due now m) m.timers v.sorted))
      (due-Apart now m) (filter-Sorted m.heap (late now m) m.timers v.sorted)

holds_lem :
    (now : ℕ) (m : TimerManager) (b : ℕ)
    → IsValid m
    → contains (fired now m).2 b
      ≡ (contains m.timers b && (not (due now m b) || (m.heap b).recurring))
holds_lem now m b v =
    (fired-Fired now m v).holds b
    ∙ (rw (contains-filter (due now m) m.timers b, contains-filter (late now m) m.timers b)
        (bool (due now m b) (contains m.timers b) (m.heap b).recurring))
  where
    bool : (d c r : Bool) → ((not d && c) || ((d && c) && r)) ≡ (c && (not d || r))
    bool d c r = ground arith

changed_lem :
    (now : ℕ) (m : TimerManager) (b : ℕ)
    → IsValid m
    → (fired now m).1 b
      ≡ (if contains m.timers b && due now m b then rearmed now (m.heap b) else m.heap b)
changed_lem now m b v =
    (fired-Fired now m v).changed b ∙ (rw (contains-filter (due now m) m.timers b) (ground arith))

rearmed-is_some :
    (now : ℕ) (c d : Bool) (t : Timer)
    → c ≡ is_some t.cb
    → (c && (not d || t.recurring)) ≡ is_some (if c && d then rearmed now t else t).cb
rearmed-is_some now false d t e = e
rearmed-is_some now true false t e = e
rearmed-is_some now true true t e = elim (Bool-cases t.recurring) [
  | inl r ↦ rw r e
  | inr r ↦ rw r refl
]

fired-armed :
    (now : ℕ) (m : TimerManager) (b : ℕ)
    → IsValid m
    → contains (fired now m).2 b ≡ is_some ((fired now m).1 b).cb
fired-armed now m b v =
    rw (holds_lem now m b v, changed_lem now m b v)
      (rearmed-is_some now (contains m.timers b) (due now m b) (m.heap b) (v.armed b))

-- `list_expired_cb` returns the callbacks of the timers that are due, in the order of their expiry: those whose
-- time has come, or all after the clock went back by more than an hour. It re-arms the due timers that
-- recur, drops the callback of the others and takes them out, leaves all other timers as they were, and keeps the
-- invariant. The address p of the timer made for the search is not one of the set.
pub list_expired_cb-FiresDue :
    (p now : ℕ) (m : TimerManager)
    → IsValid m
    → contains m.timers p ≡ false
    → IsValid (list_expired_cb p now m).1 × FiresDue now m (list_expired_cb p now m)
list_expired_cb-FiresDue p now m v gone =
    let (n, e, heap, timers) =
      list_expired_cb-fire p now m.heap m.timers m.tickled m.previous_time v.sorted gone in
    rw e (
      record {
        sorted = rw (heap, timers) (fired-Fired now m v).sorted;
        armed = λ b. rw (heap, timers) (fired-armed now m b v);
      },
      record {
        cbs = (fired-Fired now m v).cbs;
        holds = λ b. rw timers (holds_lem now m b v);
        changed = λ b. rw heap (changed_lem now m b v);
      },
    )
