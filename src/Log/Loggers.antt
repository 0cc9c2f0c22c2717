-- ===== src/Log/Loggers.antt =====
-- Loggers and appenders of sylar/log.cpp. Appenders are shared, so they stand in a store under a number; a root
-- logger has no root of its own. A formatter is a pointer that may be null.
use sylar.Common.{
  ℕ, ◌+◌, Bool, true, false, ◌&&◌, Option, none, some, List, [], ◌∷◌, ◌++◌, leb, ◌==◌,
  if◌then◌else◌,
}
use sylar.Common.Text.{Text, text_eq, codes}
use sylar.Common.Outcome.{Outcome, ok, ◌>>=◌, deref}
use sylar.Log.{Level, level_number, debug_level, LogEvent, format_items}
use sylar.Log.Pattern.{LogFormatter, new_formatter}

-- LogAppender with the data of FileLogAppender; `reopened` counts the calls of reopen.
pub record LogAppender : Type 0 where
  pub is_file : Bool
  pub level : Level
  pub has_formatter : Bool
  pub formatter : Option LogFormatter
  pub last_time : ℕ
  pub reopened : ℕ

abbrev pub Store : Type 0
Store = ℕ → LogAppender

abbrev pub put : ℕ → LogAppender → Store → Store
put a new store = λ b. if b == a then new else store b

-- StdoutLogAppender, and FileLogAppender, which opens its file.
unfoldable pub new_appender : (is_file : Bool) → LogAppender
new_appender is_file = record {
  is_file = is_file;
  level = debug_level;
  has_formatter = false;
  formatter = none;
  last_time = 0;
  reopened = if is_file then 1 else 0;
}

abbrev pub has_value {ℓ} : {A : Type ℓ} → Option A → Bool
has_value none = false
has_value (some v) = true

-- LogAppender::setFormatter.
unfoldable pub set_appender_formatter : Option LogFormatter → LogAppender → LogAppender
set_appender_formatter val a = record a { formatter = val; has_formatter = has_value val }

-- A logger without its root.
pub record Logger : Type 0 where
  pub name : Text
  pub level : Level
  pub formatter : LogFormatter
  pub appenders : List ℕ

abbrev default_pattern : Text
default_pattern = codes "%d{%Y-%m-%d %H:%M:%S}%T%t%T%N%T%F%T[%p]%T[%c]%T%f:%l%T%m%n"

unfoldable pub new_logger : Text → Outcome Logger
unfolding new_formatter
new_logger name = new_formatter default_pattern >>= λ f.
    ok (record { name = name; level = debug_level; formatter = f; appenders = [] })

-- addAppender hands the logger's formatter to an appender that has none.
unfoldable pub add_appender : ℕ → Logger → Store → Logger × Store
add_appender a l store =
    let lent = put a (record (store a) { formatter = some l.formatter }) store in
    (
      record l { appenders = l.appenders ++ (a ∷ []) },
      if has_value (store a).formatter then store else lent,
    )

-- The first such appender is taken out.
abbrev pub remove : ℕ → List ℕ → List ℕ
remove a [] = []
remove a (b ∷ l) = if b == a then l else b ∷ remove a l

unfoldable pub del_appender : ℕ → Logger → Logger
del_appender a l = record l { appenders = remove a l.appenders }

unfoldable pub clear_appenders : Logger → Logger
clear_appenders l = record l { appenders = [] }

abbrev pub lend : LogFormatter → LogAppender → LogAppender
lend val a = if a.has_formatter then a else record a { formatter = some val }

unfoldable pub lend_all : LogFormatter → List ℕ → Store → Store
lend_all val [] store = store
lend_all val (a ∷ l) store = lend_all val l (put a (lend val (store a)) store)

-- Logger::setFormatter of a formatter, which must not be null.
unfoldable pub set_formatter : LogFormatter → Logger → Store → Logger × Store
unfolding lend_all
set_formatter val l store =
    if val.is_error
    then (l, store)
    else (record l { formatter = val }, lend_all val l.appenders store)

-- Logger::setFormatter of a pattern.
unfoldable pub set_pattern : Text → Logger → Store → Outcome (Logger × Store)
unfolding new_formatter set_formatter
set_pattern val l store =
    new_formatter val >>= λ f. ok (if f.is_error then (l, store) else set_formatter f l store)

-- A file is opened again by the first event that comes 3 seconds or more behind the last time.
abbrev pub touched : LogEvent → LogAppender → LogAppender
touched event a =
    if a.is_file && leb (3 + a.last_time) event.time
    then record a { last_time = event.time; reopened = a.reopened + 1 }
    else a

abbrev pub written : ℕ → Option Text → List (ℕ × Text) → List (ℕ × Text)
written a none rest = rest
written a (some t) rest = (a, t) ∷ rest

abbrev pub enabled : Level → Logger → Bool
enabled level l = leb (level_number l.level) (level_number level)

module _ (strftime : Text → ℕ → Text) where
  -- FileLogAppender::log and StdoutLogAppender::log: the appender after it, and the text that it writes, if any.
  unfoldable pub appender_log : Level → LogEvent → LogAppender → Outcome (LogAppender × Option Text)
  unfolding format_items
  appender_log level event a =
      if leb (level_number a.level) (level_number level)
      then (deref a.formatter >>= λ f.
          ok (touched event a, some (format_items strftime f.items level event)))
      else ok (a, none)

  -- The loop of Logger::log: what each appender writes.
  unfoldable pub log_all : Level → LogEvent → List ℕ → Store → Outcome (Store × List (ℕ × Text))
  unfolding appender_log
  log_all level event [] store = ok (store, [])
  log_all level event (a ∷ l) store = appender_log level event (store a) >>= λ (next, text).
      (log_all level event l (put a next store) >>= λ (after, texts).
      ok (after, written a text texts))

  unfoldable pub log_root : Level → LogEvent → Logger → Store → Outcome (Store × List (ℕ × Text))
  unfolding log_all
  log_root level event l store =
      if enabled level l then log_all level event l.appenders store else ok (store, [])

  -- Without appenders the root logs, when there is one.
  abbrev pub to_root : Level → LogEvent → Option Logger → Store → Outcome (Store × List (ℕ × Text))
  to_root level event none store = ok (store, [])
  to_root level event (some root) store = log_root level event root store

  abbrev pub log_here :
      Level → LogEvent → Option Logger → List ℕ → Store → Outcome (Store × List (ℕ × Text))
  log_here level event root [] store = to_root level event root store
  log_here level event root (a ∷ rest) store = log_all level event (a ∷ rest) store

  -- Logger::log.
  unfoldable pub log :
      Level → LogEvent → Option Logger → Logger → Store → Outcome (Store × List (ℕ × Text))
  unfolding log_all log_root
  log level event root l store =
      if enabled level l then log_here level event root l.appenders store else ok (store, [])

-- LoggerManager: the loggers by name, without the root, which stands under its own name.
pub record LoggerManager : Type 0 where
  pub root : Logger
  pub loggers : List (Text × Logger)

abbrev pub find_logger : Text → List (Text × Logger) → Option Logger
find_logger name [] = none
find_logger name ((key, l) ∷ rest) = if text_eq key name then some l else find_logger name rest

-- getLogger; a new one has m_root for its root.
unfoldable pub get_logger : Text → LoggerManager → Outcome (LoggerManager × Logger)
unfolding new_logger
get_logger name m = elim (find_logger name ((m.root.name, m.root) ∷ m.loggers)) [
  | some l ↦ ok (m, l)
  | none ↦ new_logger name >>= λ l. ok (record m { loggers = (name, l) ∷ m.loggers }, l)
]
