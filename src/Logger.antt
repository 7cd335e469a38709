-- ===== src/Logger.antt =====
-- mymuduo/Logger.{h,cpp}: the macros, the one logger of the process, and its lines. A macro is the
-- sequence of its accesses to the logger and to `std::cout`, since any thread may use it.
-- `exit(-1)` of LOG_FATAL, behind its line, is modelled where the macro is used.
pub mod Threads
mod Tests
use my_testserver.Prelude.{ℕ, Bool, List, [], ◌∷◌, ◌++◌, map, take, Bytes, codes, if◌then◌else◌}
use my_testserver.Prelude.Int.{pos, to_string}

pub data LogLevel : Type 0 where
  info_level error_level fatal_level debug_level : LogLevel

-- `output` is what `std::cout` has got.
pub record Logger : Type 0 where
  pub log_level : LogLevel
  pub output : Bytes

-- The static object is zero before its constructor, which sets nothing.
abbrev pub instance_start : Logger
instance_start = record { log_level = info_level; output = [] }

abbrev pub set_log_level : Logger → LogLevel → Logger
set_log_level l level = record l { log_level = level }

-- `levelStr`.
abbrev pub level_str : LogLevel → Bytes
level_str info_level = codes "[INFO]"
level_str error_level = codes "[ERROR]"
level_str fatal_level = codes "[FATAL]"
level_str debug_level = codes "[DEBUG]"

-- An operand of `<<`: a text, or the element of `levelStr` at `logLevel_` as it then is.
pub data Operand : Type 0 where
  shows : Bytes → Operand
  shows_level : Operand

abbrev pub insert_operand : Logger → Operand → Logger
insert_operand l (shows t) = record l { output = l.output ++ t }
insert_operand l shows_level = record l { output = l.output ++ level_str l.log_level }

-- The operands of `log`, in order; `now` is `Timestamp::now().toString()`.
unfoldable pub log : Bytes → Bytes → ℕ → Bytes → List Operand
log now file line msg =
    shows now
    ∷ shows (codes " ")
    ∷ shows_level
    ∷ shows (codes " ")
    ∷ shows file
    ∷ shows (codes ":")
    ∷ shows (to_string (pos line))
    ∷ shows (codes " - ")
    ∷ shows msg
    ∷ shows (codes "\n")
    ∷ []

-- What a thread does to the logger at a time.
pub data Access : Type 0 where
  sets : LogLevel → Access
  inserts : Operand → Access

abbrev pub access : Logger → Access → Logger
access l (sets level) = set_log_level l level
access l (inserts o) = insert_operand l o

abbrev pub access_all : Logger → List Access → Logger
access_all l [] = l
access_all l (a ∷ more) = access_all (access l a) more

-- A use of a macro: where, when, and the formatted text before it is cut to `buf`.
pub record Use : Type 0 where
  pub now : Bytes
  pub file : Bytes
  pub line : ℕ
  pub formatted : Bytes

unfoldable pub log_at : LogLevel → Use → List Access
unfolding log
log_at level u = sets level ∷ map inserts (log u.now u.file u.line (take 1023 u.formatted))

abbrev pub log_info : Use → List Access
log_info u = log_at info_level u

abbrev pub log_error : Use → List Access
log_error u = log_at error_level u

abbrev pub log_fatal : Use → List Access
log_fatal u = log_at fatal_level u

-- `mudebug` is whether MUDEBUG is defined.
abbrev pub log_debug : Bool → Use → List Access
log_debug mudebug u = if mudebug then log_at debug_level u else []
