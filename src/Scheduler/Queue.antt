-- ===== src/Scheduler/Queue.antt =====
-- The scan of the queue takes the first task that the thread may run, and loses none.
use sylar.Common.{
  ℕ, ◌≡◌, refl, sym, ap, ◌∙◌, ◌⊎◌, inl, inr, Bool, true, false, ◌&&◌, ◌||◌, Option, none, some,
  List, [], ◌∷◌, ◌++◌, if◌then◌else◌, Bool-cases,
}
use sylar.Common.Outcome.{Outcome, ok}
use sylar.Scheduler.{
  State, FiberAndThread, Scheduler, has_work, is_elsewhere, is_executing, scan, schedule_no_lock,
  schedule_all, is_empty,
}

abbrev pub all : (FiberAndThread → Bool) → List FiberAndThread → Bool
all f [] = true
all f (t ∷ ts) = f t && all f ts

abbrev pub any : (FiberAndThread → Bool) → List FiberAndThread → Bool
any f [] = false
any f (t ∷ ts) = f t || any f ts

-- A task that this thread passes over: bound to another thread, or a fiber that is running.
abbrev pub is_passed : (ℕ → State) → ℕ → FiberAndThread → Bool
is_passed states me t = is_elsewhere me t || is_executing states t

-- The two results of a scan of l.
abbrev pub Takes :
    (ℕ → State)
    → ℕ
    → List FiberAndThread
    → Outcome (Option FiberAndThread × List FiberAndThread × Bool)
    → Type 0
Takes states me l r =
    (front : List FiberAndThread) × (t : FiberAndThread) × (back : List FiberAndThread) × (l
      ≡ front ++ (t ∷ back))
    × (r ≡ ok (some t, front ++ back, any (is_elsewhere me) front))
    × (all (is_passed states me) front ≡ true)
    × (is_passed states me t ≡ false)

abbrev pub FindsNone :
    (ℕ → State)
    → ℕ
    → List FiberAndThread
    → Outcome (Option FiberAndThread × List FiberAndThread × Bool)
    → Type 0
FindsNone states me l r =
    (r ≡ ok (none, l, any (is_elsewhere me) l)) × (all (is_passed states me) l ≡ true)

both : (a b : Bool) → (a && b) ≡ true → (a ≡ true) × (b ≡ true)
both true b e = (refl, e)
both false b e = cc

neither : (a b : Bool) → (a || b) ≡ false → (a ≡ false) × (b ≡ false)
neither true b e = cc
neither false b e = (refl, e)

pass :
    (states : ℕ → State) (me : ℕ) (t : FiberAndThread) (ts : List FiberAndThread)
    (taken : Option FiberAndThread) (left : List FiberAndThread) (tickle_me : Bool)
    → has_work t ≡ true
    → is_passed states me t ≡ true
    → scan states me ts ≡ ok (taken, left, tickle_me)
    → scan states me (t ∷ ts) ≡ ok (taken, t ∷ left, is_elsewhere me t || tickle_me)
unfolding scan
pass states me t ts taken left tickle_me work passed e = elim (Bool-cases (is_elsewhere me t)) [
  | inl f ↦ rw (f, e) refl
  | inr f ↦
      let running : is_executing states t ≡ true = rw f at passed in rw (f, work, running, e) refl
]

-- `scan`, on a queue whose tasks all have a fiber or a callback, takes the first task that is neither bound to
-- another thread nor a running fiber, leaves all others in their order, and says whether it passed over a task of
-- another thread; or there is no such task and nothing changes.
pub scan_lem :
    (states : ℕ → State) (me : ℕ) (l : List FiberAndThread)
    → all has_work l ≡ true
    → Takes states me l (scan states me l) ⊎ FindsNone states me l (scan states me l)
unfolding scan
scan_lem states me [] work = inr (refl, refl)
scan_lem states me (t ∷ ts) work = elim (Bool-cases (is_passed states me t)) [
  | inl p ↦ elim (scan_lem states me ts works) [
    | inl (front, u, back, split, result, passed, first) ↦ inl (
      t ∷ front,
      u,
      back,
      ap (λ r. t ∷ r) split,
      pass states me t ts (some u) (front ++ back) (any (is_elsewhere me) front) work_t p result,
      rw p passed,
      first,
    )
    | inr (result, passed) ↦
        inr (pass states me t ts none ts (any (is_elsewhere me) ts) work_t p result, rw p passed)
  ]
  | inr p ↦
      let (here, still) = neither (is_elsewhere me t) (is_executing states t) p in
      inl ([], t, ts, refl, rw (here, work_t, still) refl, refl, p)
]
  where
    work_t : has_work t ≡ true
    work_t = (both (has_work t) (all has_work ts) work).0

    works : all has_work ts ≡ true
    works = (both (has_work t) (all has_work ts) work).1

all-append :
    (f : FiberAndThread → Bool) (l : List FiberAndThread) (t : FiberAndThread)
    → all f l ≡ true
    → f t ≡ true
    → all f (l ++ (t ∷ [])) ≡ true
all-append f [] t e g = rw g refl
all-append f (u ∷ us) t e g =
    let (h, hs) = both (f u) (all f us) e in rw (h, all-append f us t hs g) refl

abbrev pub keep : List FiberAndThread → List FiberAndThread
keep [] = []
keep (t ∷ ts) = if has_work t then t ∷ keep ts else keep ts

append_assoc : (l m r : List FiberAndThread) → (l ++ m) ++ r ≡ l ++ (m ++ r)
append_assoc [] m r = refl
append_assoc (t ∷ l) m r = ap (λ q. t ∷ q) (append_assoc l m r)

pub append_nil : (l : List FiberAndThread) → l ++ [] ≡ l
append_nil [] = refl
append_nil (t ∷ l) = ap (λ q. t ∷ q) (append_nil l)

-- `schedule` of a range appends its tasks in order, without those that have neither fiber nor callback, changes
-- nothing else of the queue, and keeps every task of the queue with something to do.
schedule_all-keep :
    (ts : List FiberAndThread) (tickle : Bool) (s : Scheduler)
    → all has_work s.fibers ≡ true
    → ((schedule_all ts tickle s).0.fibers ≡ s.fibers ++ keep ts)
      × (all has_work (schedule_all ts tickle s).0.fibers ≡ true)
unfolding schedule_all schedule_no_lock
schedule_all-keep [] tickle s work = (sym (append_nil s.fibers), work)
schedule_all-keep (t ∷ ts) tickle s work = elim (Bool-cases (has_work t)) [
  | inl e ↦
      let later =
        schedule_all-keep ts (is_empty s.fibers || tickle)
          (record s { fibers = s.fibers ++ (t ∷ []) }) (all-append has_work s.fibers t work e) in
      rw (e, schedule_all) (later.0 ∙ append_assoc s.fibers (t ∷ []) (keep ts), later.1)
  | inr e ↦ rw (e, schedule_all) (schedule_all-keep ts (is_empty s.fibers || tickle) s work)
]
