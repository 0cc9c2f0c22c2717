-- ===== src/Timer/Valid.antt =====
-- The invariant of the manager: the set is in order, and holds the timers that have a callback.
use sylar.Common.{
  ℕ, ◌+◌, ◌-◌, ◌%◌, ◌^◌, ◌≤◌, ◌≡◌, refl, sym, ap, ◌∙◌, arith, inl, inr, Bool, true, false, not,
  ◌&&◌, Option, some, none, List, [], ◌∷◌, ◌==◌, if◌then◌else◌, Bool-cases, Option-cases, sub_u64,
}
use sylar.Common.Outcome.{ok}
use sylar.Timer.{
  Timer, TimerManager, Heap, update, set_find, set_erase, new_timer, new_timer_manager,
  insert_timer, add_timer, cancel, refresh, get_next_timer,
}
use sylar.Timer.Order.{
  Sorted, contains, set_insert-Sorted, contains-set_insert, set_find-contains, set_erase-Sorted,
  contains-set_erase, Sorted-SameNext, update-SameNext, Above-contains, ==-refl, equivalent-==,
  Lt-next,
}

abbrev pub is_some : Option ℕ → Bool
is_some none = false
is_some (some a) = true

abbrev pub Armed : Heap → List ℕ → Type 0
Armed h timers = (a : ℕ) → contains timers a ≡ is_some (h a).cb

pub record IsValid (m : TimerManager) : Type 0 where
  pub sorted : Sorted m.heap m.timers
  pub armed : Armed m.heap m.timers

pub new_timer_manager-IsValid :
    (h : Heap) (now : ℕ) → ((a : ℕ) → (h a).cb ≡ none) → IsValid (new_timer_manager h now)
unfolding new_timer_manager
new_timer_manager-IsValid h now e = record { sorted = tt; armed = λ a. rw (e a) refl }

-- The set of a changed heap, with the changed timer taken out.
pub erased :
    (m : TimerManager) (a : ℕ) (t : Timer)
    → IsValid m
    → Sorted (update m.heap a t) (set_erase m.heap a m.timers)
erased m a t v =
    Sorted-SameNext m.heap (update m.heap a t) (set_erase m.heap a m.timers)
      (update-SameNext m.heap a t (set_erase m.heap a m.timers)
        (contains-set_erase m.heap a m.timers a v.sorted ∙ (rw (==-refl a) refl)))
      (set_erase-Sorted m.heap a m.timers v.sorted)

-- A timer that was outside the set and goes into it, with a callback.
pub inserted-IsValid :
    (m : TimerManager) (a cb : ℕ)
    → Sorted m.heap m.timers
    → (m.heap a).cb ≡ some cb
    → ((b : ℕ) → (b == a) ≡ false → contains m.timers b ≡ is_some (m.heap b).cb)
    → IsValid (insert_timer a m).0
unfolding insert_timer
inserted-IsValid m a cb s e others = record {
  sorted = set_insert-Sorted m.heap a m.timers s;
  armed = λ b. contains-set_insert m.heap a m.timers b ∙ elim (Bool-cases (b == a)) [
    | inl f ↦ let same : b ≡ a = ground (arith, f) in rw (same, ==-refl a, e) refl
    | inr f ↦ let other : (a == b) ≡ false = ground (arith, f) in rw (other, others b f) refl
  ];
}

-- addTimer with a new object (one that is in no state yet) keeps the invariant, and the new timer is in the set.
pub add_timer-IsValid :
    (a ms cb : ℕ) (recurring : Bool) (now : ℕ) (m : TimerManager)
    → IsValid m
    → (m.heap a).cb ≡ none
    → IsValid (add_timer a ms cb recurring now m).0
unfolding add_timer new_timer
add_timer-IsValid a ms cb recurring now m v fresh =
    let t = new_timer ms cb recurring now in
    let outside : contains m.timers a ≡ false = v.armed a ∙ (rw fresh refl) in
    inserted-IsValid (record m { heap = update m.heap a t }) a cb
      (Sorted-SameNext m.heap (update m.heap a t) m.timers
        (update-SameNext m.heap a t m.timers outside) v.sorted)
      (rw (==-refl a) refl) (λ b other. rw other (v.armed b))

-- What is erased does not depend on the heap: the set compares an object with itself.
set_erase_same : (h h' : Heap) (a : ℕ) (l : List ℕ) → set_erase h' a l ≡ set_erase h a l
unfolding set_erase
set_erase_same h h' a [] = refl
set_erase_same h h' a (y ∷ ys) =
    rw (equivalent-== h a y, equivalent-== h' a y, set_erase_same h h' a ys) refl

-- An armed timer that is taken out, changed and put back.
module _ (m : TimerManager) (a : ℕ) (t : Timer) (cb : ℕ) (v : IsValid m)
    (e : (m.heap a).cb ≡ some cb) where
  abbrev moved : TimerManager
  moved = record m { heap = update m.heap a t; timers = set_erase m.heap a m.timers }

  moved-IsValid : t.cb ≡ some cb → IsValid (insert_timer a moved).0
  moved-IsValid e' = inserted-IsValid moved a cb (erased m a t v) (rw (==-refl a) e') (λ b f.
      contains-set_erase m.heap a m.timers b v.sorted
      ∙ (let other : (a == b) ≡ false = ground (arith, f) in rw (other, f) (v.armed b)))

  moved-contains : (b : ℕ) → contains (insert_timer a moved).0.timers b ≡ contains m.timers b
  unfolding insert_timer
  moved-contains b =
      contains-set_insert (update m.heap a t) a (set_erase m.heap a m.timers) b
      ∙ (rw (contains-set_erase m.heap a m.timers b v.sorted) (elim (Bool-cases (a == b)) [
        | inl f ↦
            let same : a ≡ b = ground (arith, f) in
            let inside : contains m.timers b ≡ true =
              ap (contains m.timers) (sym same) ∙ v.armed a ∙ (rw e refl) in
            rw (f, inside) refl
        | inr f ↦ rw f refl
      ]))

-- `cancel` of an armed timer keeps the invariant and returns true; the timer is out of the set, the others
-- stay, and a second `cancel` changes nothing and returns false.
pub cancel_lem :
    (a cb : ℕ) (m : TimerManager)
    → IsValid m
    → (m.heap a).cb ≡ some cb
    → (n : TimerManager) × (cancel a m ≡ ok (n, true))
      × IsValid n
      × ((b : ℕ) → contains n.timers b ≡ (not (a == b) && contains m.timers b))
      × (cancel a n ≡ ok (n, false))
unfolding cancel
cancel_lem a cb m v e =
    let t = record (m.heap a) { cb = none } in
    let n = record m { heap = update m.heap a t; timers = set_erase m.heap a m.timers } in
    let found : set_find (update m.heap a t) a m.timers ≡ true =
      set_find-contains (update m.heap a t) a m.timers ∙ v.armed a ∙ (rw e refl) in
    let same = set_erase_same m.heap (update m.heap a t) a m.timers in
    (
      n,
      rw (e, cancel) (rw (found, same) refl),
      record {
        sorted = erased m a t v;
        armed = λ b. contains-set_erase m.heap a m.timers b v.sorted ∙ elim (Bool-cases (b == a)) [
          | inl f ↦ let same' : b ≡ a = ground (arith, f) in rw (same', ==-refl a) refl
          | inr f ↦ let other : (a == b) ≡ false = ground (arith, f) in rw (other, f) (v.armed b)
        ];
      },
      (λ b. contains-set_erase m.heap a m.timers b v.sorted),
      rw (==-refl a, cancel) refl,
    )

-- `refresh` returns whether the timer is in the set, keeps the invariant, and moves no other timer.
refresh-IsValid :
    (a now : ℕ) (m : TimerManager)
    → IsValid m
    → IsValid (refresh a now m).0
      × ((refresh a now m).1 ≡ contains m.timers a)
      × ((b : ℕ) → contains (refresh a now m).0.timers b ≡ contains m.timers b)
unfolding refresh insert_timer
refresh-IsValid a now m v = elim (Option-cases (m.heap a).cb) [
  | inl e ↦ rw (e, refresh) (v, sym (v.armed a ∙ rw e refl), λ b. refl)
  | inr (cb, e) ↦
      let inside : contains m.timers a ≡ true = v.armed a ∙ (rw e refl) in
      let found = set_find-contains m.heap a m.timers ∙ inside in
      let t = record (m.heap a) { next = (now + (m.heap a).ms) % 2 ^ 64 } in
      let moved_on = moved-IsValid m a t cb v e e in
      rw (e, refresh)
        (rw found (
          record { sorted = moved_on.sorted; armed = moved_on.armed },
          sym inside,
          moved-contains m a t cb v e,
        ))
]

-- The timer that `reset` leaves: it runs out `ms` behind now, or behind the start that it had.
abbrev pub reset_timer : ℕ → Bool → ℕ → Timer → Timer
reset_timer ms from_now now t =
    let start = if from_now then now else sub_u64 t.next t.ms in
    record t { ms = ms; next = (start + ms) % 2 ^ 64 }

-- `get_next_timer` is the distance to the first expiry: no timer of the set is nearer.
get_next_timer_lem :
    (now a : ℕ) (m : TimerManager)
    → IsValid m
    → contains m.timers a ≡ true
    → ((get_next_timer now m).1 ≤ (m.heap a).next - now)
      × ((b : ℕ) × (contains m.timers b ≡ true)
          × ((get_next_timer now m).1 ≡ (m.heap b).next - now))
unfolding get_next_timer
get_next_timer_lem now a m v inside = go m.timers refl
  where
    go :
        (l : List ℕ)
        → m.timers ≡ l
        → ((get_next_timer now m).1 ≤ (m.heap a).next - now)
          × ((b : ℕ) × (contains m.timers b ≡ true)
              × ((get_next_timer now m).1 ≡ (m.heap b).next - now))
    go [] e = absurd (let gone : contains m.timers a ≡ false = rw e refl in cc)
    go (y ∷ ys) e =
        let sorted : Sorted m.heap (y ∷ ys) = rw e at v.sorted in
        let first : (get_next_timer now m).1 ≡ (m.heap y).next - now =
          rw (e, get_next_timer) (ground arith) in
        let inside' : contains (y ∷ ys) a ≡ true = rw e at inside in
        let least : (m.heap y).next ≤ (m.heap a).next = elim (Bool-cases (y == a)) [
          | inl f ↦ let same : y ≡ a = ground (arith, f) in rw same (omega arith)
          | inr f ↦ Lt-next m.heap y a (Above-contains m.heap y a ys sorted.0 (rw f at inside'))
        ] in
        (omega (arith, first, least), (y, rw e (rw (==-refl y) refl), first))
