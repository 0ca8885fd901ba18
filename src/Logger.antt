-- ===== src/Logger.antt =====
-- logger.c and logger.h: which messages are written, and from where. `open`, the clock and the
-- formatting of a message are parameters.
pub mod Buffer
use oserver.Prelude.{
  ℕ, zero, suc, ◌+◌, ◌-◌, Bool, true, false, ◌&&◌, Option, none, some, List, [], ◌∷◌, ◌++◌,
  if◌then◌else◌, leb, length, take, ℤ, pos, negsuc,
}

-- `log_level_t`
pub data LogLevel : Type 0 where
  log_level_debug log_level_info log_level_error log_level_fatal : LogLevel

-- The number of the constant.
abbrev pub level_number : LogLevel → ℕ
level_number log_level_debug = 0
level_number log_level_info = 1
level_number log_level_error = 2
level_number log_level_fatal = 3

-- `output_fd` and `log_level`
pub record Logger : Type 0 where
  pub output_fd : ℤ
  pub log_level : LogLevel

-- The `switch` of `logger_init`.
abbrev pub limited : LogLevel → LogLevel → LogLevel
limited now log_level_debug = log_level_debug
limited now log_level_info = log_level_info
limited now log_level_fatal = log_level_fatal
limited now log_level_error = now

-- `fd` is what `open` returns.
unfoldable pub logger_init : Logger → ℤ → LogLevel → Logger
logger_init logger fd limit_level = record {
  output_fd = fd;
  log_level = limited logger.log_level limit_level;
}

-- `sizeof(buffer)`
abbrev pub buffer_size : ℕ
buffer_size = 1024

-- A call of `write`: the bytes of the text that stand in the buffer, and the size that is passed.
pub record WriteCall : Type 0 where
  pub stored : List ℕ
  pub len : ℕ

abbrev pub is_open : ℤ → Bool
is_open (pos fd) = true
is_open (negsuc n) = false

-- `time` is the date with the blanks behind it, and `text` all that the format and its arguments come
-- to, of which `vsnprintf` stores what there is room for in front of a final 0 while it returns the
-- length of the whole.
unfoldable pub logger_log : Logger → LogLevel → List ℕ → List ℕ → Option WriteCall
logger_log logger level time text =
    if is_open logger.output_fd && leb (level_number logger.log_level) (level_number level)
    then some (record {
      stored = time ++ take (buffer_size - length time - 1) text;
      len = length time + length text;
    })
    else none

-- The descriptor that is closed: 0 is not.
abbrev pub closed_fd : ℤ → Option ℕ
closed_fd (negsuc n) = none
closed_fd (pos zero) = none
closed_fd (pos (suc n)) = some (suc n)

unfoldable pub logger_close : Logger → Option ℕ
logger_close logger = closed_fd logger.output_fd
