-- ===== src/IoManager/Taking.antt =====
-- The guarded calls of triggerEvent that empty one or both slots of a descriptor.
use sylar.Common.{
  ℕ, zero, suc, ◌≡◌, refl, sym, ap, ◌∙◌, inl, inr, Bool, true, false, not, ◌&&◌, ◌||◌, none, some,
  List, [], ◌∷◌, ◌++◌, get_elem?, set, if◌then◌else◌, Bool-cases,
}
use sylar.Common.Outcome.{ok, aborted, ◌>>=◌}
use sylar.IoManager.{Task, fire_event, fire_if, has_bit, read_event, write_event}
use sylar.IoManager.Registry.{
  Slot, idle, waiting, Slots, Kind, reading, writing, event_of, slot_of, put, put-slot_of, busy,
  tasks_of, events_in, fd_context_of, manager_of,
}
use sylar.IoManager.Events.{event_bit, trigger_event-idle}
use sylar.IoManager.Operations.{fire_event_lem, busy-waiting}

abbrev pub take_if : Bool → Kind → Slots → Slots
take_if a k x = if a then put k idle x else x

abbrev pub tasks_if : Bool → Slot → List (ℕ × Task)
tasks_if a y = if a then tasks_of y else []

set-get_elem? : (l : List Slots) (fd : ℕ) (x : Slots) → get_elem? l fd ≡ some x → set l fd x ≡ l
set-get_elem? [] fd x e = refl
set-get_elem? (y ∷ l) zero x e =
    let same : y ≡ x = ap (λ o. elim o [ none ↦ y | some z ↦ z ]) e in rw same refl
set-get_elem? (y ∷ l) (suc fd) x e = ap (λ r. y ∷ r) (set-get_elem? l fd x e)

pub get_elem?-set :
    (l : List Slots) (fd : ℕ) (x y : Slots)
    → get_elem? l fd ≡ some x
    → get_elem? (set l fd y) fd ≡ some y
get_elem?-set [] fd x y e = cc
get_elem?-set (z ∷ l) zero x y e = refl
get_elem?-set (z ∷ l) (suc fd) x y e = get_elem?-set l fd x y e

pub set-set : (l : List Slots) (fd : ℕ) (x y : Slots) → set (set l fd x) fd y ≡ set l fd y
set-set [] fd x y = refl
set-set (z ∷ l) zero x y = refl
set-set (z ∷ l) (suc fd) x y = ap (λ r. z ∷ r) (set-set l fd x y)

append_nil : (l : List (ℕ × Task)) → l ++ [] ≡ l
append_nil [] = refl
append_nil (t ∷ l) = ap (λ r. t ∷ r) (append_nil l)

idle_of : (y : Slot) → busy y ≡ false → y ≡ idle
idle_of idle e = refl
idle_of (waiting s t) e = cc

-- `if (mask & event)` around triggerEvent: nothing, the task that waits, or a failed assertion.
fire_if_lem :
    (a : Bool) (k : Kind) (l : List Slots) (out : List (ℕ × Task)) (fd : ℕ) (x : Slots)
    → get_elem? l fd ≡ some x
    → fire_if a fd (event_of k) (fd_context_of fd x) (manager_of l out) ≡ (
        if a && not (busy (slot_of k x))
        then aborted
        else ok (
          fd_context_of fd (take_if a k x),
          manager_of (set l fd (take_if a k x)) (out ++ tasks_if a (slot_of k x)),
        ))
unfolding fire_if
fire_if_lem false k l out fd x found =
    ap (λ m. ok (fd_context_of fd x, m)) (rw (set-get_elem? l fd x found, append_nil out) refl)
fire_if_lem true k l out fd x found = elim (Bool-cases (busy (slot_of k x))) [
  | inl e ↦
      let (s, t, full) = busy-waiting (slot_of k x) e in
      rw e (fire_event_lem (λ o f m. true) l out fd x found k s t full ∙ (rw full refl))
  | inr e ↦
      rw e (unfold fire_event in rw (trigger_event-idle k fd x (idle_of (slot_of k x) e)) refl)
]

-- Both events in the order of the code; the mask of the second is read after the first.
abbrev pub take_both : Bool → Bool → Slots → Slots
take_both a b x = take_if b writing (take_if a reading x)

abbrev pub tasks_both : Bool → Bool → Slots → List (ℕ × Task)
tasks_both a b x = tasks_if a x.reader ++ tasks_if b x.writer

writer_stays : (a : Bool) (x : Slots) → slot_of writing (take_if a reading x) ≡ x.writer
writer_stays false x = refl
writer_stays true x = refl

pub append_assoc : (l m r : List (ℕ × Task)) → (l ++ m) ++ r ≡ l ++ (m ++ r)
append_assoc [] m r = refl
append_assoc (t ∷ l) m r = ap (λ q. t ∷ q) (append_assoc l m r)

abbrev pub lacks : Bool → Bool → Slots → Bool
lacks a b x = (a && not (busy x.reader)) || (b && not (busy x.writer))

pub fire_both :
    (a b : Bool) (l : List Slots) (out : List (ℕ × Task)) (fd : ℕ) (x : Slots)
    → get_elem? l fd ≡ some x
    → (fire_if a fd read_event (fd_context_of fd x) (manager_of l out) >>= λ r.
        fire_if b fd write_event r.0 r.1 >>= λ r'. ok r'.1)
      ≡ (if lacks a b x
          then aborted
          else ok (manager_of (set l fd (take_both a b x)) (out ++ tasks_both a b x)))
fire_both a b l out fd x found = elim (Bool-cases (a && not (busy x.reader))) [
  | inl e ↦ rw (fire_if_lem a reading l out fd x found, e) refl
  | inr e ↦
      let y = take_if a reading x in
      let found' = get_elem?-set l fd x y found in
      let second = fire_if_lem b writing (set l fd y) (out ++ tasks_if a x.reader) fd y found' in
      rw (fire_if_lem a reading l out fd x found, e)
        (rw
          (
            second,
            writer_stays a x,
            set-set l fd y (take_both a b x),
            append_assoc out (tasks_if a x.reader) (tasks_if b x.writer),
          )
          (elim (Bool-cases (b && not (busy x.writer))) [ inl f ↦ rw f refl | inr f ↦ rw f refl ]))
]

-- With the mask of the context itself there is nothing to fail.
pub fire_if_busy :
    (k : Kind) (l : List Slots) (out : List (ℕ × Task)) (fd : ℕ) (x : Slots)
    → get_elem? l fd ≡ some x
    → fire_if
        (has_bit (events_in x) (event_of k))
        fd
        (event_of k)
        (fd_context_of fd x)
        (manager_of l out)
      ≡ ok (
        fd_context_of fd (put k idle x),
        manager_of (set l fd (put k idle x)) (out ++ tasks_of (slot_of k x)),
      )
fire_if_busy k l out fd x found = elim (Bool-cases (busy (slot_of k x))) [
  | inl e ↦ rw (event_bit k x, e) (fire_if_lem true k l out fd x found ∙ (rw e refl))
  | inr e ↦
      let empty = idle_of (slot_of k x) e in
      let same : x ≡ put k idle x = sym (ap (λ y. put k y x) (sym empty) ∙ put-slot_of k x) in
      rw (event_bit k x, e)
        (fire_if_lem false k l out fd x found
          ∙ ap (λ z. ok (fd_context_of fd z, manager_of (set l fd z) (out ++ []))) same
          ∙ ap
              (λ y. ok (
                fd_context_of fd (put k idle x),
                manager_of (set l fd (put k idle x)) (out ++ tasks_of y),
              ))
              (sym empty))
]
