-- ===== src/Logger.antt =====
-- The log: src/Logger.cpp. `fopen` is an input.
pub mod Target
mod Tests
use traffic_inspector.Base.{
  Bool, true, false, List, [], ◌∷◌, ◌++◌, Option, none, some, Text, codes, if◌then◌else◌,
}

-- An open stream: the standard output, or the file of a path.
pub data Stream : Type 0 where
  stdout : Stream
  file : Text → Stream

-- `logFile`, null at first, and what was written so far, in order, with the stream it went to.
pub record Logger : Type 0 where
  pub log_file : Option Stream
  pub written : List (Stream × Text)

abbrev pub new_logger : Logger
new_logger = record { log_file = none; written = [] }

abbrev pub or_stdout : Option Stream → Stream
or_stdout none = stdout
or_stdout (some f) = f

-- `logger`, of a line that is already formatted. Each line is flushed.
unfoldable pub logger : Text → Logger → Logger
logger line l = record l { written = l.written ++ ((or_stdout l.log_file, line) ∷ []) }

-- The stream that `initializeLogger` chooses: `none` for a null path; the flag says whether `fopen`
-- succeeds.
unfoldable pub open_log : Option Text → Bool → Stream
open_log none opens = stdout
open_log (some path) opens = if opens then file path else stdout

unfoldable pub initialize_logger : Option Text → Bool → Logger → Logger
unfolding open_log logger
initialize_logger path opens l =
    logger (codes "Logger Initialized")
      (elim l.log_file [ none ↦ record l { log_file = some (open_log path opens) } | some f ↦ l ])

-- A call, from any thread: the two functions in the order in which they run.
pub data Call : Type 0 where
  initializes : Option Text → Bool → Call
  logs : Text → Call

unfoldable pub call : Call → Logger → Logger
unfolding initialize_logger
call (initializes path opens) l = initialize_logger path opens l
call (logs line) l = logger line l

unfoldable pub calls : List Call → Logger → Logger
unfolding call
calls [] l = l
calls (c ∷ cs) l = calls cs (call c l)
