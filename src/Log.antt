-- ===== src/Log.antt =====
-- common/log.go: the logger. Texts are lists of bytes; `fmt.Printf` is a parameter: what it prints
-- for a format and its arguments.
pub mod Levels
mod Tests
use qperf_go.Prelude.{
  ℕ, ◌+◌, Bool, true, false, Option, none, some, List, [], ◌∷◌, ◌++◌, if◌then◌else◌, leb, ltb, ◌==◌,
  length,
}
use qperf_go.ByteCount.{same_text, to_lower}

abbrev pub log_level_nothing : ℕ
log_level_nothing = 0

abbrev pub log_level_error : ℕ
log_level_error = 1

abbrev pub log_level_info : ℕ
log_level_info = 2

abbrev pub log_level_debug : ℕ
log_level_debug = 3

pub record Logger : Type 0 where
  pub prefix : List ℕ
  pub log_level : ℕ
  pub time_format : List ℕ

abbrev pub set_log_level : Logger → ℕ → Logger
set_log_level l level = record l { log_level = level }

abbrev pub set_log_time_format : Logger → List ℕ → Logger
set_log_time_format l format = record l { time_format = format }

-- `time` is the present time in the logger's format.
unfoldable pub before_format : Logger → List ℕ → List ℕ
before_format l time =
    (if ltb 0 (length l.time_format) then time ++ (32 ∷ []) else [])
    ++ (if ltb 0 (length l.prefix) then l.prefix ++ (32 ∷ []) else [])

module _ {Args : Type 0} (printf : List ℕ → Args → List ℕ) where
  -- `logMessage`: the prefix is a part of the format, and 10 ends the line.
  unfoldable pub log_message : Logger → List ℕ → List ℕ → Args → List ℕ
  log_message l time format args = printf (before_format l time ++ (format ++ (10 ∷ []))) args

  -- What is printed, if the level lets it.
  unfoldable pub message : Bool → Logger → List ℕ → List ℕ → Args → Option (List ℕ)
  message true l time format args = some (log_message l time format args)
  message false l time format args = none

  unfoldable pub debugf : Logger → List ℕ → List ℕ → Args → Option (List ℕ)
  debugf l time format args = message (l.log_level == log_level_debug) l time format args

  unfoldable pub infof : Logger → List ℕ → List ℕ → Args → Option (List ℕ)
  infof l time format args = message (leb log_level_info l.log_level) l time format args

  unfoldable pub errorf : Logger → List ℕ → List ℕ → Args → Option (List ℕ)
  errorf l time format args = message (leb log_level_error l.log_level) l time format args

unfoldable pub with_prefix : Logger → List ℕ → Logger
with_prefix l [] = l
with_prefix l (c ∷ cs) = record l { prefix = l.prefix ++ ((91 ∷ []) ++ ((c ∷ cs) ++ (93 ∷ []))) }

-- "debug", "info" and "error".
abbrev pub debug_text : List ℕ
debug_text = 100 ∷ 101 ∷ 98 ∷ 117 ∷ 103 ∷ []

abbrev pub info_text : List ℕ
info_text = 105 ∷ 110 ∷ 102 ∷ 111 ∷ []

abbrev pub error_text : List ℕ
error_text = 101 ∷ 114 ∷ 114 ∷ 111 ∷ 114 ∷ []

-- The level for the value of the environment variable; an invalid one is reported and is the default.
unfoldable pub level_of_text : List ℕ → ℕ
level_of_text text =
    if same_text [] text
    then log_level_info
    else if same_text debug_text text
    then log_level_debug
    else if same_text info_text text
    then log_level_info
    else if same_text error_text text
    then log_level_error
    else log_level_info

abbrev pub read_logging_env : List ℕ → ℕ
read_logging_env value = level_of_text (to_lower value)
