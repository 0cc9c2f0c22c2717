-- ===== src/IoManager/Registry.antt =====
-- The abstract view of the event table: a slot for reading and a slot for writing per descriptor, each
-- idle or with one waiting task, and how the code's contexts hold it.
use sylar.Common.{
  ℕ, zero, suc, ◌+◌, ◌-◌, ◌*◌, ◌/◌, ◌%◌, ◌^◌, ◌≤◌, ◌≡◌, refl, sym, ap, ◌∙◌, arith, Bool, true,
  false, none, some, List, [], ◌∷◌, ◌++◌, length, get_elem?, set, take_all, replicate, Bool-cases,
  inl, inr, ltb, if◌then◌else◌,
}
use sylar.IoManager.{
  Event, read_event, write_event, EventContext, FdContext, Task, cb_task, fiber_task, IoManager,
  blank, new_fd_context, new_contexts, context_resize, room_for,
}

pub data Slot : Type 0 where
  idle : Slot
  waiting : (scheduler : ℕ) (task : Task) → Slot

pub record Slots : Type 0 where
  pub reader : Slot
  pub writer : Slot

abbrev pub empty_slots : Slots
empty_slots = record { reader = idle; writer = idle }

-- The two kinds of events, and the slot of each.
pub data Kind : Type 0 where
  reading : Kind
  writing : Kind

abbrev pub event_of : Kind → Event
event_of reading = read_event
event_of writing = write_event

abbrev pub slot_of : Kind → Slots → Slot
slot_of reading s = s.reader
slot_of writing s = s.writer

abbrev pub put : Kind → Slot → Slots → Slots
put reading x s = record s { reader = x }
put writing x s = record s { writer = x }

abbrev pub count_of : Slot → ℕ
count_of idle = 0
count_of (waiting s t) = 1

-- How many tasks wait.
abbrev pub waiting_count : List Slots → ℕ
waiting_count [] = 0
waiting_count (s ∷ l) = count_of s.reader + count_of s.writer + waiting_count l

abbrev pub tasks_of : Slot → List (ℕ × Task)
tasks_of idle = []
tasks_of (waiting s t) = (s, t) ∷ []

-- The code's form of these.
abbrev pub context_of : Slot → EventContext
context_of idle = blank
context_of (waiting s (cb_task k)) = record { scheduler = some s; fiber = none; cb = some k }
context_of (waiting s (fiber_task f)) = record { scheduler = some s; fiber = some f; cb = none }

abbrev pub mask_of : Slot → ℕ → ℕ
mask_of idle bit = 0
mask_of (waiting s t) bit = bit

abbrev pub events_of : Slot → Slot → ℕ
events_of idle idle = 0
events_of (waiting s t) idle = 1
events_of idle (waiting s t) = 4
events_of (waiting s t) (waiting s' t') = 5

abbrev pub fd_context_of : ℕ → Slots → FdContext
fd_context_of fd s = record {
  read = context_of s.reader;
  write = context_of s.writer;
  fd = fd;
  events = events_of s.reader s.writer;
}

abbrev pub contexts_from : ℕ → List Slots → List FdContext
contexts_from fd [] = []
contexts_from fd (s ∷ l) = fd_context_of fd s ∷ contexts_from (suc fd) l

-- The manager that holds the slots l, after it scheduled `out`.
abbrev pub manager_of : List Slots → List (ℕ × Task) → IoManager
manager_of l out = record {
  fd_contexts = contexts_from 0 l;
  pending_event_count = waiting_count l % 2 ^ 64;
  scheduled = out;
}

pub length-contexts_from : (fd : ℕ) (l : List Slots) → length (contexts_from fd l) ≡ length l
length-contexts_from fd [] = refl
length-contexts_from fd (s ∷ l) = ap suc (length-contexts_from (suc fd) l)

get_elem?-contexts_from_at :
    (fd i : ℕ) (l : List Slots) (s : Slots)
    → get_elem? l i ≡ some s
    → get_elem? (contexts_from fd l) i ≡ some (fd_context_of (fd + i) s)
get_elem?-contexts_from_at fd i [] s e = cc
get_elem?-contexts_from_at fd zero (x ∷ l) s e =
    let same : fd + 0 ≡ fd = omega arith in
    rw same (ap (λ o. elim o [ none ↦ none | some y ↦ some (fd_context_of fd y) ]) e)
get_elem?-contexts_from_at fd (suc i) (x ∷ l) s e =
    let same : fd + suc i ≡ suc fd + i = omega arith in
    rw same (get_elem?-contexts_from_at (suc fd) i l s e)

pub get_elem?-contexts_from :
    (fd : ℕ) (l : List Slots) (s : Slots)
    → get_elem? l fd ≡ some s
    → get_elem? (contexts_from 0 l) fd ≡ some (fd_context_of fd s)
get_elem?-contexts_from fd l s e =
    let same : 0 + fd ≡ fd = omega arith in rw same at (get_elem?-contexts_from_at 0 fd l s e)

set-contexts_from_at :
    (fd i : ℕ) (l : List Slots) (s : Slots)
    → set (contexts_from fd l) i (fd_context_of (fd + i) s) ≡ contexts_from fd (set l i s)
set-contexts_from_at fd i [] s = refl
set-contexts_from_at fd zero (x ∷ l) s = let same : fd + 0 ≡ fd = omega arith in rw same refl
set-contexts_from_at fd (suc i) (x ∷ l) s =
    let same : fd + suc i ≡ suc fd + i = omega arith in
    rw same (ap (λ cs. fd_context_of fd x ∷ cs) (set-contexts_from_at (suc fd) i l s))

pub set-contexts_from :
    (fd : ℕ) (l : List Slots) (s : Slots)
    → set (contexts_from 0 l) fd (fd_context_of fd s) ≡ contexts_from 0 (set l fd s)
set-contexts_from fd l s =
    let same : 0 + fd ≡ fd = omega arith in rw same at (set-contexts_from_at 0 fd l s)

-- One slot changes, and the count with it.
pub waiting_count-set :
    (i : ℕ) (l : List Slots) (s t : Slots)
    → get_elem? l i ≡ some s
    → waiting_count (set l i t) + (count_of s.reader + count_of s.writer)
      ≡ waiting_count l + (count_of t.reader + count_of t.writer)
waiting_count-set i [] s t e = cc
waiting_count-set zero (x ∷ l) s t e = let same : x ≡ s = some-injective e in rw same (omega arith)
  where
    some-injective : some x ≡ some s → x ≡ s
    some-injective e = ap (λ o. elim o [ none ↦ x | some y ↦ y ]) e
waiting_count-set (suc i) (x ∷ l) s t e = omega (arith, waiting_count-set i l s t e)

abbrev pub busy : Slot → Bool
busy idle = false
busy (waiting s t) = true

abbrev pub events_in : Slots → ℕ
events_in s = events_of s.reader s.writer

pub waiting_count-append_empty :
    (l : List Slots) (n : ℕ) → waiting_count (l ++ replicate n empty_slots) ≡ waiting_count l
waiting_count-append_empty [] zero = refl
waiting_count-append_empty [] (suc n) = omega (arith, waiting_count-append_empty [] n)
waiting_count-append_empty (s ∷ l) n = omega (arith, waiting_count-append_empty l n)

-- The table that addEvent works on: it grows to one and a half times a descriptor that it lacks.
abbrev pub with_room : ℕ → List Slots → List Slots
with_room fd l = if ltb fd (length l) then l else l ++ replicate (fd * 3 / 2 - length l) empty_slots

new_contexts-contexts_from :
    (fd n : ℕ) → new_contexts fd n ≡ contexts_from fd (replicate n empty_slots)
unfolding new_contexts new_fd_context
new_contexts-contexts_from fd zero = refl
new_contexts-contexts_from fd (suc n) =
    ap (λ cs. fd_context_of fd empty_slots ∷ cs) (new_contexts-contexts_from (suc fd) n)

contexts_from-append :
    (fd : ℕ) (l r : List Slots)
    → contexts_from fd (l ++ r) ≡ contexts_from fd l ++ contexts_from (fd + length l) r
contexts_from-append fd [] r = let same : fd + 0 ≡ fd = omega arith in rw same refl
contexts_from-append fd (s ∷ l) r =
    let same : fd + suc (length l) ≡ suc fd + length l = omega arith in
    rw same (ap (λ cs. fd_context_of fd s ∷ cs) (contexts_from-append (suc fd) l r))

pub context_resize-contexts_from :
    (size : ℕ) (l : List Slots)
    → length l ≤ size
    → context_resize size (contexts_from 0 l)
      ≡ contexts_from 0 (l ++ replicate (size - length l) empty_slots)
unfolding context_resize
context_resize-contexts_from size l h =
    let all = take_all size (contexts_from 0 l) (omega (arith, length-contexts_from 0 l)) in
    let same : 0 + length l ≡ length l = omega arith in
    rw (all, length-contexts_from 0 l)
      (ap (λ cs. contexts_from 0 l ++ cs) (new_contexts-contexts_from (length l) (size - length l))
        ∙ sym (rw same at (contexts_from-append 0 l (replicate (size - length l) empty_slots))))

pub room_for-with_room :
    (fd : ℕ) (l : List Slots) → room_for fd (contexts_from 0 l) ≡ contexts_from 0 (with_room fd l)
unfolding room_for
room_for-with_room fd l =
    rw (length-contexts_from 0 l, room_for)
      (elim (Bool-cases (ltb fd (length l))) [
        | inl e ↦ rw e refl
        | inr e ↦ rw e (context_resize-contexts_from (fd * 3 / 2) l (ground (arith, e)))
      ])

pub waiting_count-with_room :
    (fd : ℕ) (l : List Slots) → waiting_count (with_room fd l) ≡ waiting_count l
waiting_count-with_room fd l = elim (Bool-cases (ltb fd (length l))) [
  | inl e ↦ rw e refl
  | inr e ↦ rw e (waiting_count-append_empty l (fd * 3 / 2 - length l))
]

pub put-slot_of : (k : Kind) (x : Slots) → put k (slot_of k x) x ≡ x
put-slot_of reading x = refl
put-slot_of writing x = refl
