-- ===== src/Log/Examples.antt =====
-- Patterns, and a logger with one appender.
use sylar.Common.{ℕ, ◌≡◌, refl, arith, true, false, some, none, [], ◌∷◌, List, if◌then◌else◌}
use sylar.Common.Text.{Text, codes}
use sylar.Common.Outcome.{ok, fault}
use sylar.Log.{
  info_level, warn_level, LogEvent, message_item, level_item, string_item, date_time_item,
  new_line_item, level_to_string, level_from_string, tab_item,
}
use sylar.Log.Pattern.{LogFormatter, new_formatter}
use sylar.Log.Parsing.{new_formatter-ends}
use sylar.Log.Written.{Part}
use sylar.Log.Naming.{new_formatter-show}
use sylar.Log.Loggers.{
  Store, Logger, new_appender, add_appender, log, put, set_appender_formatter, enabled,
}
use sylar.Log.Running.{starts, adds, run-log}
use sylar.Log.Formatters.{expected}

reads_items :
    new_formatter (codes "[%p]%T%m%n")
    ≡ ok (record {
      pattern = codes "[%p]%T%m%n";
      items =
          string_item (codes "[")
          ∷ level_item
          ∷ string_item (codes "]")
          ∷ tab_item
          ∷ message_item
          ∷ new_line_item
          ∷ [];
      is_error = false;
    })
unfolding new_formatter
reads_items = refl

-- The second % is not skipped: it begins a name.
doubled_percent :
    new_formatter (codes "%%m")
    ≡ ok (record {
      pattern = codes "%%m";
      items = string_item (codes "%") ∷ message_item ∷ [];
      is_error = false;
    })
unfolding new_formatter
doubled_percent = refl

percent_alone :
    new_formatter (codes "5%%")
    ≡ ok (record {
      pattern = codes "5%%";
      items = string_item (codes "5%") ∷ string_item (codes "<<error_format %>>") ∷ [];
      is_error = true;
    })
unfolding new_formatter
percent_alone = refl

-- The text in front of a brace that is not closed comes behind the error.
open_brace :
    new_formatter (codes "a%d{x")
    ≡ ok (record {
      pattern = codes "a%d{x";
      items = string_item (codes "<<pattern_error>>") ∷ string_item (codes "ad{x") ∷ [];
      is_error = true;
    })
unfolding new_formatter
open_brace = refl

level_read : level_from_string (level_to_string warn_level) ≡ warn_level
unfolding level_from_string level_to_string
level_read = refl

abbrev clock : Text → ℕ → Text
clock fmt time = fmt

abbrev event : LogEvent
event = record {
  file = codes "main.cc";
  line = 7;
  elapse = 0;
  thread_id = 1;
  fiber_id = 0;
  time = 100;
  thread_name = codes "main";
  logger = codes "root";
  content = codes "hi";
}

abbrev message_formatter : LogFormatter
message_formatter = record { pattern = codes "%m"; items = message_item ∷ []; is_error = false }

abbrev logger : Logger
logger = record {
  name = codes "root";
  level = info_level;
  formatter = message_formatter;
  appenders = [];
}

abbrev appenders : Store
appenders a = new_appender true

-- After setFormatter(nullptr) the next call uses the null pointer.
null_formatter :
    log clock warn_level event none
      (record logger { appenders = 0 ∷ [] })
      (put 0 (set_appender_formatter none (appenders 0)) appenders)
    ≡ fault
unfolding log new_appender set_appender_formatter
null_formatter = refl

new_formatter-ends_example :
    (f : LogFormatter) × (new_formatter (codes "%%{") ≡ ok f) × (f.pattern ≡ codes "%%{")
new_formatter-ends_example = new_formatter-ends (codes "%%{")

abbrev parts : List Part
parts =
    record { before = codes "at "; name = codes "d"; fmt = some (codes "%H") }
    ∷ record { before = []; name = codes "xy"; fmt = none }
    ∷ []

new_formatter-show_example :
    new_formatter (codes "at %d{%H}%xy.")
    ≡ ok (record {
      pattern = codes "at %d{%H}%xy.";
      items =
          string_item (codes "at ")
          ∷ date_time_item (codes "%H")
          ∷ string_item (codes "<<error_format %xy>>")
          ∷ string_item (codes ".")
          ∷ [];
      is_error = true;
    })
new_formatter-show_example =
    new_formatter-show parts (codes ".") (refl, refl, refl, (refl, refl, (omega arith, refl), refl))

run-log_example :
    (after : Store) × (log clock warn_level event none
        (add_appender 0 logger appenders).0
        (add_appender 0 logger appenders).1
      ≡ ok (
        after,
        if enabled warn_level (add_appender 0 logger appenders).0
            then expected clock warn_level event
                (add_appender 0 logger appenders).0.appenders
                (add_appender 0 logger appenders).1
            else [],
      ))
run-log_example = run-log clock warn_level event (adds 0 (starts logger appenders refl))
