-- ===== src/Log.antt =====
-- sylar/log.cpp: levels, the events that are logged, and how the items of a formatter print them. strftime on
-- the local time is an argument.
pub mod Pattern
pub mod Parsing
pub mod Written
pub mod Naming
pub mod Loggers
pub mod Formatters
pub mod Running
mod Examples
use sylar.Common.{
  ℕ, zero, suc, Bool, true, false, Option, none, some, List, [], ◌∷◌, ◌++◌, if◌then◌else◌,
}
use sylar.Common.Text.{Text, codes, text_eq, decimal}

-- LogLevel::Level, with the suffix `_level`.
pub data Level : Type 0 where
  unknow_level : Level
  debug_level : Level
  info_level : Level
  warn_level : Level
  error_level : Level
  fatal_level : Level

abbrev pub level_number : Level → ℕ
level_number unknow_level = 0
level_number debug_level = 1
level_number info_level = 2
level_number warn_level = 3
level_number error_level = 4
level_number fatal_level = 5

unfoldable pub level_to_string : Level → Text
level_to_string debug_level = codes "DEBUG"
level_to_string info_level = codes "INFO"
level_to_string warn_level = codes "WARN"
level_to_string error_level = codes "ERROR"
level_to_string fatal_level = codes "FATAL"
level_to_string unknow_level = codes "UNKNOW"

-- The tests of LogLevel::FromString in their order.
abbrev pub level_names : List (Text × Level)
level_names =
    (codes "debug", debug_level)
    ∷ (codes "info", info_level)
    ∷ (codes "warn", warn_level)
    ∷ (codes "error", error_level)
    ∷ (codes "fatal", fatal_level)
    ∷ (codes "DEBUG", debug_level)
    ∷ (codes "INFO", info_level)
    ∷ (codes "WARN", warn_level)
    ∷ (codes "ERROR", error_level)
    ∷ (codes "FATAL", fatal_level)
    ∷ []

unfoldable pub first_level : Text → List (Text × Level) → Level
first_level str [] = unknow_level
first_level str ((name, level) ∷ rest) = if text_eq str name then level else first_level str rest

unfoldable pub level_from_string : Text → Level
unfolding first_level
level_from_string str = first_level str level_names

-- What the items read of a LogEvent; `logger` is the name of its logger.
pub record LogEvent : Type 0 where
  pub file : Text
  pub line : ℕ
  pub elapse : ℕ
  pub thread_id : ℕ
  pub fiber_id : ℕ
  pub time : ℕ
  pub thread_name : Text
  pub logger : Text
  pub content : Text

-- The subclasses of FormatItem.
pub data FormatItem : Type 0 where
  message_item : FormatItem
  level_item : FormatItem
  elapse_item : FormatItem
  name_item : FormatItem
  thread_id_item : FormatItem
  new_line_item : FormatItem
  date_time_item : Text → FormatItem
  filename_item : FormatItem
  line_item : FormatItem
  tab_item : FormatItem
  fiber_id_item : FormatItem
  thread_name_item : FormatItem
  string_item : Text → FormatItem

module _ (strftime : Text → ℕ → Text) where
  -- FormatItem::format; numbers have 32 bits.
  unfoldable pub format_item : FormatItem → Level → LogEvent → Text
  unfolding level_to_string
  format_item message_item level e = e.content
  format_item level_item level e = level_to_string level
  format_item elapse_item level e = decimal 10 e.elapse
  format_item name_item level e = e.logger
  format_item thread_id_item level e = decimal 10 e.thread_id
  format_item new_line_item level e = 10 ∷ []
  format_item (date_time_item fmt) level e = strftime fmt e.time
  format_item filename_item level e = e.file
  format_item line_item level e = decimal 10 e.line
  format_item tab_item level e = 9 ∷ []
  format_item fiber_id_item level e = decimal 10 e.fiber_id
  format_item thread_name_item level e = e.thread_name
  format_item (string_item s) level e = s

  -- LogFormatter::format.
  unfoldable pub format_items : List FormatItem → Level → LogEvent → Text
  unfolding format_item
  format_items [] level e = []
  format_items (i ∷ items) level e = format_item i level e ++ format_items items level e
