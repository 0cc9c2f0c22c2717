-- ===== src/Log/Formatters.antt =====
-- Which formatter each appender has, so that no log call uses a null one, and what a call writes.
use sylar.Common.{
  ℕ, ◌≡◌, refl, ap, ◌∙◌, arith, inl, inr, true, ◌&&◌, Option, none, some, List, [], ◌∷◌, ◌++◌, leb,
  ◌+◌, ◌==◌, if◌then◌else◌, Bool-cases, Option-cases,
}
use sylar.Common.Text.{Text}
use sylar.Common.Outcome.{ok}
use sylar.Log.{Level, level_number, LogEvent, format_items}
use sylar.Log.Pattern.{LogFormatter}
use sylar.Log.Loggers.{
  LogAppender, Store, put, Logger, add_appender, remove, lend, lend_all, appender_log, log_all,
  touched,
}

abbrev pub HasSome : Option LogFormatter → Type 0
HasSome o = (f : LogFormatter) × (o ≡ some f)

abbrev pub Formatted : List ℕ → Store → Type 0
Formatted [] store = Unit
Formatted (a ∷ l) store = HasSome (store a).formatter × Formatted l store

put_self : (a : ℕ) (new : LogAppender) (store : Store) → put a new store a ≡ new
put_self a new store = let same : (a == a) ≡ true = ground arith in rw same refl

pub Formatted-put :
    (l : List ℕ) (a : ℕ) (new : LogAppender) (store : Store)
    → HasSome new.formatter
    → Formatted l store
    → Formatted l (put a new store)
Formatted-put [] a new store some_new h = tt
Formatted-put (b ∷ l) a new store some_new (here, later) = (
  elim (Bool-cases (b == a)) [ inl e ↦ rw e some_new | inr e ↦ rw e here ],
  Formatted-put l a new store some_new later,
)

Formatted-append :
    (l : List ℕ) (a : ℕ) (store : Store)
    → Formatted l store
    → HasSome (store a).formatter
    → Formatted (l ++ (a ∷ [])) store
Formatted-append [] a store h new = (new, tt)
Formatted-append (b ∷ l) a store (here, later) new = (here, Formatted-append l a store later new)

pub Formatted-remove :
    (l : List ℕ) (a : ℕ) (store : Store) → Formatted l store → Formatted (remove a l) store
Formatted-remove [] a store h = tt
Formatted-remove (b ∷ l) a store (here, later) = elim (Bool-cases (b == a)) [
  | inl e ↦ rw e later
  | inr e ↦ rw e (here, Formatted-remove l a store later)
]

lend-HasSome :
    (val : LogFormatter) (a : LogAppender) → HasSome a.formatter → HasSome (lend val a).formatter
lend-HasSome val a h = elim (Bool-cases a.has_formatter) [
  | inl e ↦ rw e h
  | inr e ↦ rw e (val, refl)
]

pub lend_all-Formatted :
    (val : LogFormatter) (l own : List ℕ) (store : Store)
    → Formatted l store
    → Formatted own store
    → Formatted own (lend_all val l store)
unfolding lend_all
lend_all-Formatted val [] own store h o = o
lend_all-Formatted val (a ∷ l) own store (here, later) o =
    let new = lend-HasSome val (store a) here in
    lend_all-Formatted val l own (put a (lend val (store a)) store)
      (Formatted-put l a (lend val (store a)) store new later)
      (Formatted-put own a (lend val (store a)) store new o)

pub add_appender-Formatted :
    (a : ℕ) (l : Logger) (store : Store)
    → Formatted l.appenders store
    → Formatted (add_appender a l store).0.appenders (add_appender a l store).1
unfolding add_appender
add_appender-Formatted a l store h = elim (Option-cases (store a).formatter) [
  | inl e ↦
      let new = record (store a) { formatter = some l.formatter } in
      let self : HasSome (put a new store a).formatter =
        (l.formatter, ap (λ x. x.formatter) (put_self a new store)) in
      let all =
        Formatted-append l.appenders a (put a new store)
          (Formatted-put l.appenders a new store (l.formatter, refl) h) self in
      rw e all
  | inr (f, e) ↦ rw e (Formatted-append l.appenders a store h (f, e))
]

module _ (strftime : Text → ℕ → Text) where
  -- What an appender writes, and what all of them do, in their order.
  abbrev text_of : Level → LogEvent → Option LogFormatter → Text
  text_of level event none = []
  text_of level event (some f) = format_items strftime f.items level event

  abbrev pub expected : Level → LogEvent → List ℕ → Store → List (ℕ × Text)
  expected level event [] store = []
  expected level event (a ∷ l) store =
      let rest = expected level event l store in
      if leb (level_number (store a).level) (level_number level)
      then (a, text_of level event (store a).formatter) ∷ rest
      else rest

  -- Level and formatter of an appender stay as they are when it logs.
  abbrev Like : LogAppender → LogAppender → Type 0
  Like x y = (x.level ≡ y.level) × (x.formatter ≡ y.formatter)

  touched-Like : (event : LogEvent) (a : LogAppender) → Like (touched event a) a
  touched-Like event a = elim (Bool-cases (a.is_file && leb (3 + a.last_time) event.time)) [
    | inl e ↦ rw e (refl, refl)
    | inr e ↦ rw e (refl, refl)
  ]

  appender_step :
      (level : Level) (event : LogEvent) (a : LogAppender)
      → HasSome a.formatter
      → (next : LogAppender) × (appender_log strftime level event a
          ≡ ok (
            next,
            if leb (level_number a.level) (level_number level)
                then some (text_of level event a.formatter)
                else none,
          ))
        × Like next a
  unfolding appender_log
  appender_step level event a (f, e) =
      elim (Bool-cases (leb (level_number a.level) (level_number level))) [
        | inr g ↦ (a, rw g refl, (refl, refl))
        | inl g ↦ (touched event a, rw (g, e) refl, touched-Like event a)
      ]

  expected-put :
      (level : Level) (event : LogEvent) (l : List ℕ) (a : ℕ) (new : LogAppender) (store : Store)
      → Like new (store a)
      → expected level event l (put a new store) ≡ expected level event l store
  expected-put level event [] a new store like = refl
  expected-put level event (b ∷ l) a new store like =
      let rest = expected-put level event l a new store like in
      elim (Bool-cases (b == a)) [
        | inr e ↦ rw (e, rest) refl
        | inl e ↦ let same : b ≡ a = ground (arith, e) in rw (e, rest, like.0, like.1, same) refl
      ]

  pub log_all-expected :
      (level : Level) (event : LogEvent) (l : List ℕ) (store : Store)
      → Formatted l store
      → (after : Store) × (log_all strftime level event l store
          ≡ ok (after, expected level event l store))
        × ((own : List ℕ) → Formatted own store → Formatted own after)
  unfolding log_all
  log_all-expected level event [] store h = (store, refl, λ own o. o)
  log_all-expected level event (a ∷ l) store (here, later) =
      let (next, e, like) = appender_step level event (store a) here in
      let some_next : HasSome next.formatter = (here.0, like.1 ∙ here.1) in
      let moved = put a next store in
      let (after, f, keep) =
        log_all-expected level event l moved (Formatted-put l a next store some_next later) in
      let rest = expected-put level event l a next store like in
      (
        after,
        rw (e, f, rest)
            (elim (Bool-cases (leb (level_number (store a).level) (level_number level))) [
              | inl g ↦ rw g refl
              | inr g ↦ rw g refl
            ]),
        λ own o. keep own (Formatted-put own a next store some_next o),
      )
