-- ===== src/Agent/Logger.antt =====
-- agent/logger.go: the writer of the log file, which starts the file anew when it is full.
pub mod Bounded
use heartpost.Common.{
  ℕ, Bool, true, false, ◌&&◌, not, Option, none, some, List, [], ◌∷◌, ◌++◌, length, take,
  if◌then◌else◌,
}
use heartpost.Common.Text.{Text, is_empty}
use heartpost.Common.Int.{ℤ, pos, ltb_ℤ}
use heartpost.Signature.{Bytes}

-- rotatingWriter, with the bytes of its file; `is_open` is whether its handle is.
pub record RotatingWriter : Type 0 where
  pub contents : Bytes
  pub max_size : ℤ
  pub is_open : Bool

-- Which system calls of one write work. A write that fails has written so many bytes.
pub record Os : Type 0 where
  pub stats : Bool
  pub reopens : Bool
  pub short_write : Option ℕ

pub data WriteError : Type 0 where
  rotate_failed write_failed : WriteError

-- NewRotatingWriter, on what is in the file, or `none` where it cannot be opened.
abbrev pub new_rotating_writer : Option Bytes → ℤ → Option RotatingWriter
new_rotating_writer none max = none
new_rotating_writer (some s) max = some (record { contents = s; max_size = max; is_open = true })

-- w.file.Write
unfoldable pub write_file : RotatingWriter → Os → Bytes → RotatingWriter × Option WriteError
write_file w os p = if not w.is_open then (w, some write_failed) else elim os.short_write [
  | none ↦ (record w { contents = w.contents ++ p }, none)
  | some n ↦ (record w { contents = w.contents ++ take n p }, some write_failed)
]

abbrev pub is_full : RotatingWriter → Os → Bool
is_full w os = w.is_open && os.stats && not (ltb_ℤ (pos (length w.contents)) w.max_size)

abbrev pub close_file : RotatingWriter → RotatingWriter
close_file w = record w { is_open = false }

-- Write
unfoldable pub write : RotatingWriter → Os → Bytes → RotatingWriter × Option WriteError
unfolding write_file
write w os p =
    if is_full w os
    then if os.reopens
      then write_file (record w { contents = [] }) os p
      else (close_file w, some rotate_failed)
    else write_file w os p

-- The writer of a logger.
pub data Logger : Type 0 where
  stderr not_opened : Logger
  log_to : RotatingWriter → Logger

abbrev pub logger_of : Option RotatingWriter → Logger
logger_of none = not_opened
logger_of (some w) = log_to w

-- OpenLogger
unfoldable pub open_logger : (Text → Option Bytes) → Text → ℤ → Logger
open_logger file log_file max =
    if is_empty log_file then stderr else logger_of (new_rotating_writer (file log_file) max)

-- A run of writes.
unfoldable pub write_all : RotatingWriter → List (Os × Bytes) → RotatingWriter
unfolding write
write_all w [] = w
write_all w ((os, p) ∷ ps) = write_all (write w os p).0 ps
