-- ===== src/Logger/Buffer.antt =====
-- The buffer of a message in logger.c.
use oserver.Prelude.{
  ℕ, ◌+◌, ◌-◌, ◌≤◌, ◌<◌, ◌≡◌, ◌⊎◌, ap, true, false, Option, none, some, List, ◌++◌, leb, length,
  length-append, take, length-take, take_whole, arith, Bool-cases, inl, inr,
}
use oserver.Logger.{LogLevel, level_number, Logger, buffer_size, WriteCall, is_open, logger_log}

le_of : (a b : ℕ) → leb a b ≡ true → a ≤ b
le_of a b e = ground (arith, e)

lt_of : (a b : ℕ) → leb a b ≡ false → b < a
lt_of a b e = ground (arith, e)

-- What is written of a message: nothing below the level or without an open file, the whole text where
-- it is shorter than the buffer, and otherwise a size that goes past what has been stored.
abbrev pub Logs : Logger → LogLevel → List ℕ → List ℕ → Option WriteCall → Type 0
Logs logger level time text none =
    (is_open logger.output_fd ≡ false) ⊎ (level_number level < level_number logger.log_level)
Logs logger level time text (some call) =
    (is_open logger.output_fd ≡ true)
    × (level_number logger.log_level ≤ level_number level)
    × (length time + length text < buffer_size
        → (call.stored ≡ time ++ text) × (call.len ≡ length call.stored))
    × (buffer_size ≤ length time + length text → length call.stored < call.len)

-- A message is written where the file is open and its level is not below the limit. Where the date and
-- the text are shorter than the buffer, all of it is written and nothing else; otherwise `write` is
-- given more bytes than have been stored.
pub log-Logs :
    (logger : Logger) (level : LogLevel) (time text : List ℕ)
    → length time < buffer_size
    → Logs logger level time text (logger_log logger level time text)
unfolding logger_log
log-Logs logger level time text short =
    let room = buffer_size - length time - 1 in
    elim (Bool-cases (is_open logger.output_fd)) [
      | inr shut ↦ rw (shut) (inl shut)
      | inl opened ↦ elim (Bool-cases (leb (level_number logger.log_level) (level_number level))) [
        | inr below ↦
            rw (opened, below)
              (inr (lt_of (level_number logger.log_level) (level_number level) below))
        | inl above ↦
            rw (opened, above)
              (
                opened,
                le_of (level_number logger.log_level) (level_number level) above,
                λ fits.
                    let whole = take_whole room text (omega (arith, fits)) in
                    (
                      ap (λ (t : List ℕ). time ++ t) whole,
                      omega (arith, ap length whole, length-append time (take room text)),
                    ),
                λ long.
                    omega (arith, long, length-append time (take room text), length-take room text),
              )
      ]
    ]
