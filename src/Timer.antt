-- ===== src/Timer.antt =====
-- sylar/timer.cpp: timers and the set that keeps them in the order of their expiry. A Timer object is
-- found by its address in a heap; callbacks are numbers. Each method runs under the manager's lock,
-- and takes the clock's answers (GetCurrentMS) and the addresses of new objects as arguments.
pub mod Order
pub mod Valid
pub mod Expiry
pub mod Firing
pub mod ListExpired
mod Examples
use sylar.Common.{
  ℕ, zero, suc, ◌+◌, ◌-◌, ◌%◌, ◌^◌, Bool, true, false, not, ◌&&◌, ◌||◌, Option, none, some, List,
  [], ◌∷◌, ◌++◌, ltb, leb, ◌==◌, if◌then◌else◌, sub_u64,
}
use sylar.Common.Outcome.{Outcome, ok, fault, ◌>>=◌}

pub record Timer : Type 0 where
  pub recurring : Bool
  pub ms : ℕ
  pub next : ℕ
  pub cb : Option ℕ

abbrev pub Heap : Type 0
Heap = ℕ → Timer

-- `timers` is the std::set, first element first.
pub record TimerManager : Type 0 where
  pub heap : Heap
  pub timers : List ℕ
  pub tickled : Bool
  pub previous_time : ℕ

abbrev pub update : Heap → ℕ → Timer → Heap
update h a t b = if b == a then t else h b

-- Timer::Comparator, on pointers.
unfoldable pub comparator : Heap → Option ℕ → Option ℕ → Bool
comparator h none none = false
comparator h none (some b) = true
comparator h (some a) none = false
comparator h (some a) (some b) =
    if ltb (h a).next (h b).next
    then true
    else (if ltb (h b).next (h a).next then false else ltb a b)

-- The operations of std::set under the comparator: two elements are the same when neither is less.
abbrev pub less : Heap → ℕ → ℕ → Bool
less h a b = comparator h (some a) (some b)

abbrev pub equivalent : Heap → ℕ → ℕ → Bool
equivalent h a b = not (less h a b) && not (less h b a)

unfoldable pub set_insert : Heap → ℕ → List ℕ → List ℕ
set_insert h x [] = x ∷ []
set_insert h x (y ∷ ys) =
    if less h x y then x ∷ (y ∷ ys) else (if less h y x then y ∷ set_insert h x ys else y ∷ ys)

unfoldable pub set_find : Heap → ℕ → List ℕ → Bool
set_find h x [] = false
set_find h x (y ∷ ys) = equivalent h x y || set_find h x ys

unfoldable pub set_erase : Heap → ℕ → List ℕ → List ℕ
set_erase h x [] = []
set_erase h x (y ∷ ys) = if equivalent h x y then ys else y ∷ set_erase h x ys

-- The elements before lower_bound(x), and those from there on.
unfoldable pub lower_bound : Heap → ℕ → List ℕ → List ℕ × List ℕ
lower_bound h x [] = ([], [])
lower_bound h x (y ∷ ys) =
    let (front, rest) = lower_bound h x ys in if less h y x then (y ∷ front, rest) else ([], y ∷ ys)

abbrev is_front : ℕ → List ℕ → Bool
is_front a [] = false
is_front a (x ∷ xs) = x == a

-- Timer(ms, cb, recurring, manager).
unfoldable pub new_timer : ℕ → ℕ → Bool → ℕ → Timer
new_timer ms cb recurring now = record {
  recurring = recurring;
  ms = ms;
  next = (now + ms) % 2 ^ 64;
  cb = some cb;
}

-- TimerManager().
unfoldable pub new_timer_manager : Heap → ℕ → TimerManager
new_timer_manager h now = record { heap = h; timers = []; tickled = false; previous_time = now }

-- addTimer(val, lock); the second result says whether it calls onTimerInsertAtFront.
unfoldable pub insert_timer : ℕ → TimerManager → TimerManager × Bool
unfolding set_insert comparator
insert_timer a m =
    let timers = set_insert m.heap a m.timers in
    let at_front = is_front a timers && not m.tickled in
    (record m { timers = timers; tickled = at_front || m.tickled }, at_front)

-- addTimer(ms, cb, recurring), for a new object at address a.
unfoldable pub add_timer : ℕ → ℕ → ℕ → Bool → ℕ → TimerManager → TimerManager × Bool
unfolding insert_timer new_timer
add_timer a ms cb recurring now m =
    insert_timer a (record m { heap = update m.heap a (new_timer ms cb recurring now) })

-- OnTimer behind a weak pointer: the callback runs if what the pointer refers to is still there.
unfoldable pub on_timer : Bool → ℕ → Option ℕ
on_timer there cb = if there then some cb else none

-- `erase(it)` of a position that `find` did not find is undefined.
abbrev pub erase_found : Heap → ℕ → List ℕ → Outcome (List ℕ)
erase_found h a l = if set_find h a l then ok (set_erase h a l) else fault

unfoldable pub cancel : ℕ → TimerManager → Outcome (TimerManager × Bool)
unfolding set_find set_erase comparator
cancel a m = elim (m.heap a).cb [
  | none ↦ ok (m, false)
  | some cb ↦ do
    let heap = update m.heap a (record (m.heap a) { cb = none })
    timers ← erase_found heap a m.timers
    ok (record m { heap = heap; timers = timers }, true)
]

unfoldable pub refresh : ℕ → ℕ → TimerManager → TimerManager × Bool
unfolding set_find set_erase set_insert comparator
refresh a now m = elim (m.heap a).cb [
  | none ↦ (m, false)
  | some cb ↦
      if not (set_find m.heap a m.timers)
      then (m, false)
      else (let timers = set_erase m.heap a m.timers in
          let heap =
            update m.heap a (record (m.heap a) { next = (now + (m.heap a).ms) % 2 ^ 64 }) in
          (record m { heap = heap; timers = set_insert heap a timers }, true))
]

-- The three results: the manager, what `reset` returns, and whether it called onTimerInsertAtFront.
unfoldable pub reset : ℕ → ℕ → Bool → ℕ → TimerManager → TimerManager × Bool × Bool
unfolding set_find set_erase insert_timer
reset a ms from_now now m =
    if ms == (m.heap a).ms && not from_now then (m, true, false) else elim (m.heap a).cb [
      | none ↦ (m, false, false)
      | some cb ↦
          if not (set_find m.heap a m.timers)
          then (m, false, false)
          else (let timers = set_erase m.heap a m.timers in
              let start = if from_now then now else sub_u64 (m.heap a).next (m.heap a).ms in
              let timer = record (m.heap a) { ms = ms; next = (start + ms) % 2 ^ 64 } in
              let (n, front) =
                insert_timer a (record m { heap = update m.heap a timer; timers = timers }) in
              (n, true, front))
    ]

unfoldable pub get_next_timer : ℕ → TimerManager → TimerManager × ℕ
get_next_timer now m = (
  record m { tickled = false },
  elim m.timers [
    | [] ↦ 2 ^ 64 - 1
    | a ∷ rest ↦ if leb (m.heap a).next now then 0 else (m.heap a).next - now
  ],
)

-- detectClockRollover: the clock went back by more than an hour.
unfoldable pub rolled_over : ℕ → ℕ → Bool
rolled_over now previous = ltb now previous && ltb now (sub_u64 previous 3_600_000)

-- `while (it != end && (*it)->m_next == now_ms) ++it`, as what is passed and what is left.
unfoldable pub skip_equal : Heap → ℕ → List ℕ → List ℕ × List ℕ
skip_equal h now [] = ([], [])
skip_equal h now (y ∷ ys) =
    let (front, rest) = skip_equal h now ys in
    if (h y).next == now then (y ∷ front, rest) else ([], y ∷ ys)

-- [begin, it) and [it, end) of listExpiredCb, for a timer `now_timer` at address p.
unfoldable pub split_expired : Bool → ℕ → ℕ → Heap → List ℕ → List ℕ × List ℕ
unfolding lower_bound skip_equal comparator
split_expired rollover p now h l =
    if rollover
    then (l, [])
    else (let probe = update h p (record { recurring = false; ms = 0; next = now; cb = none }) in
        let (before, from) = lower_bound probe p l in
        let (equal, rest) = skip_equal h now from in (before ++ equal, rest))

-- The last loop of listExpiredCb.
unfoldable pub fire : ℕ → List ℕ → Heap → List ℕ → List (Option ℕ) × Heap × List ℕ
unfolding set_insert comparator
fire now [] h timers = ([], h, timers)
fire now (a ∷ expired) h timers =
    let t = h a in
    let h' =
      if t.recurring
      then update h a (record t { next = (now + t.ms) % 2 ^ 64 })
      else update h a (record t { cb = none }) in
    let timers' = if t.recurring then set_insert h' a timers else timers in
    let (cbs, h'', timers'') = fire now expired h' timers' in (t.cb ∷ cbs, h'', timers'')

unfoldable pub list_expired_cb : ℕ → ℕ → TimerManager → List (Option ℕ) × TimerManager
unfolding rolled_over split_expired fire
list_expired_cb p now m = elim m.timers [
  | [] ↦ ([], m)
  | first ∷ _ ↦
      let rollover = rolled_over now m.previous_time in
      let n = record m { previous_time = now } in
      if not rollover && ltb now (m.heap first).next
      then ([], n)
      else (let (expired, rest) = split_expired rollover p now m.heap m.timers in
          let (cbs, h, timers) = fire now expired m.heap rest in
          (cbs, record n { heap = h; timers = timers }))
]

unfoldable pub has_timer : TimerManager → Bool
has_timer m = elim m.timers [ [] ↦ false | a ∷ rest ↦ true ]
