-- ===== src/Log/Running.antt =====
-- Every run of a logger: each of its appenders has a formatter, and what a call writes.
use sylar.Common.{
  ℕ, ◌≡◌, refl, inl, inr, Bool, true, false, none, some, List, [], ◌∷◌, if◌then◌else◌, Bool-cases,
}
use sylar.Common.Text.{Text}
use sylar.Common.Outcome.{ok, OnOk}
use sylar.Log.{Level, LogEvent}
use sylar.Log.Pattern.{LogFormatter}
use sylar.Log.Loggers.{
  Store, put, Logger, set_appender_formatter, add_appender, del_appender, clear_appenders, lend_all,
  set_formatter, log, enabled, log_here,
}
use sylar.Log.Formatters.{
  Formatted, Formatted-put, Formatted-remove, lend_all-Formatted, add_appender-Formatted,
  log_all-expected, expected,
}

module _ (strftime : Text → ℕ → Text) where
  -- What can happen to a logger and the appenders: its own operations, a call of log, and a formatter that is
  -- not null for an appender.
  pub data LoggerRun : Logger → Store → Type 0 where
    starts : (l : Logger) (store : Store) → l.appenders ≡ [] → LoggerRun l store
    adds :
        {l : Logger} {store : Store}
        → (a : ℕ) → LoggerRun l store
        → LoggerRun (add_appender a l store).0 (add_appender a l store).1
    deletes :
        {l : Logger} {store : Store}
        → (a : ℕ) → LoggerRun l store
        → LoggerRun (del_appender a l) store
    clears : {l : Logger} {store : Store} → LoggerRun l store → LoggerRun (clear_appenders l) store
    sets :
        {l : Logger} {store : Store}
        → (val : LogFormatter) → LoggerRun l store
        → LoggerRun (set_formatter val l store).0 (set_formatter val l store).1
    gives :
        {l : Logger} {store : Store}
        → (a : ℕ) → (val : LogFormatter) → LoggerRun l store
        → LoggerRun l (put a (set_appender_formatter (some val) (store a)) store)
    logs :
        {l : Logger} {store after : Store} {texts : List (ℕ × Text)}
        → (level : Level) → (event : LogEvent)
        → log strftime level event none l store ≡ ok (after, texts)
        → LoggerRun l store
        → LoggerRun l after

  log-expected :
      (level : Level) (event : LogEvent) (l : Logger) (store : Store)
      → Formatted l.appenders store
      → (after : Store) × (log strftime level event none l store
          ≡ ok (
            after,
            if enabled level l then expected strftime level event l.appenders store else [],
          ))
        × Formatted l.appenders after
  unfolding log
  log-expected level event l store h = elim (Bool-cases (enabled level l)) [
    | inr e ↦ (store, rw e refl, h)
    | inl e ↦ rw e (go l.appenders h)
  ]
    where
      go :
          (own : List ℕ)
          → Formatted own store
          → (after : Store) × (log_here strftime level event none own store
              ≡ ok (after, expected strftime level event own store))
            × Formatted own after
      go [] k = (store, refl, tt)
      go (a ∷ rest) k =
          let (after, f, keep) = log_all-expected strftime level event (a ∷ rest) store k in
          (after, f, keep (a ∷ rest) k)

  abbrev Held : Logger × Store → Type 0
  Held (l, s) = Formatted l.appenders s

  either_way : (b : Bool) (x y : Logger × Store) → Held x → Held y → Held (if b then x else y)
  either_way true x y h k = h
  either_way false x y h k = k

  run-Formatted : {l : Logger} {store : Store} → LoggerRun l store → Formatted l.appenders store
  unfolding del_appender clear_appenders set_formatter set_appender_formatter
  run-Formatted (starts l store e) = rw e tt
  run-Formatted (adds {l} {store} a run) = add_appender-Formatted a l store (run-Formatted run)
  run-Formatted (deletes {l} {store} a run) =
      Formatted-remove l.appenders a store (run-Formatted run)
  run-Formatted (clears run) = tt
  run-Formatted (sets {l} {store} val run) =
      let h = run-Formatted run in
      either_way val.is_error (l, store)
        (record l { formatter = val }, lend_all val l.appenders store) h
        (lend_all-Formatted val l.appenders l.appenders store h h)
  run-Formatted (gives {l} {store} a val run) =
      Formatted-put l.appenders a (set_appender_formatter (some val) (store a)) store (val, refl)
        (run-Formatted run)
  run-Formatted (logs {l} {store} {after} {texts} level event e run) =
      let (next, f, kept) = log-expected level event l store (run-Formatted run) in
      let told : OnOk (λ r. Formatted l.appenders r.0) (log strftime level event none l store) =
        rw f kept in
      rw e at told

  -- After any run of a logger's operations, log calls and formatters that are not null given to appenders, a call
  -- of a logger without a root uses no null formatter, and writes what its level lets through: for each
  -- appender whose level does too, in their order, the event as its formatter prints it, and nothing else.
  pub run-log :
      {l : Logger} {store : Store} (level : Level) (event : LogEvent)
      → LoggerRun l store
      → (after : Store) × (log strftime level event none l store
          ≡ ok (
            after,
            if enabled level l then expected strftime level event l.appenders store else [],
          ))
  run-log {l} {store} level event run =
      let (after, e, kept) = log-expected level event l store (run-Formatted run) in (after, e)
