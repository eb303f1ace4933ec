-- ===== src/Logger/Pipeline.antt =====
-- common/logger.hpp: the threads that log, the queue and the thread that writes. A line is the bytes of
-- a buffer; what is written is the list of the lines.
use new_happy_server.Base.{
  ℕ, ◌≡◌, Bool, false, Option, none, some, List, [], ◌∷◌, ◌++◌, ltb, ◌==◌, if◌then◌else◌,
}
use new_happy_server.Logger.{LogLevel, error, warn, info, debug, max_level}
use new_happy_server.Queue.{Queue, new_queue, push_back, size, swap, exit}
pub use new_happy_server.Worker.{is_init, is_ready, is_exited}
use new_happy_server.Worker.{State, init, ready, exited}

-- Where the thread is in `write`: `tests` and `counts` are the two parts of the loop's condition.
pub data Position : Type 0 where
  starts tests counts swaps ended : Position
  writes : List (List ℕ) → Position

pub record Logger : Type 0 where
  pub state_ : State
  pub level_ : LogLevel
  pub log_queue_ : Queue (List ℕ)
  pub thread_ : Position
  pub written : List (List ℕ)

abbrev pub new_logger : Logger
new_logger = record {
  state_ = init;
  level_ = debug;
  log_queue_ = new_queue;
  thread_ = starts;
  written = [];
}

abbrev pub number : LogLevel → ℕ
number error = 1
number warn = 2
number info = 3
number debug = 4
number max_level = 5

-- Whether a line of the level is left out.
abbrev pub is_above : LogLevel → Logger → Bool
is_above level l = ltb (number l.level_) (number level)

unfoldable pub init_logger : Logger → Logger
init_logger l = record l { state_ = ready }

unfoldable pub logstring : LogLevel → List ℕ → Logger → Logger
unfolding push_back
logstring level line l =
    if is_above level l then l else record l { log_queue_ = (push_back line l.log_queue_).0 }

-- `wait` up to `join`.
unfoldable pub wait : Logger → Logger
wait l =
    if is_exited l.state_ then l else record l { state_ = exited; log_queue_ = exit l.log_queue_ }

-- One step of the thread from a position; none where it waits for an element, or has ended.
unfoldable pub step_from : Position → Logger → Option Logger
unfolding swap
step_from starts l = some (if is_init l.state_ then l else record l { thread_ = tests })
step_from tests l = some (record l { thread_ = if is_ready l.state_ then swaps else counts })
step_from counts l = some (record l { thread_ = if size l.log_queue_ == 0 then ended else swaps })
step_from swaps l = elim (swap [] l.log_queue_) [
  | none ↦ none
  | some (q, lines) ↦ some (record l { log_queue_ = q; thread_ = writes lines })
]
step_from (writes []) l = some (record l { thread_ = tests })
step_from (writes (line ∷ rest)) l =
    some (record l { thread_ = writes rest; written = l.written ++ (line ∷ []) })
step_from ended l = none

abbrev pub write_step : Logger → Option Logger
write_step l = step_from l.thread_ l

-- The steps of all threads, with the lines that they push. `init` is called before `wait`.
pub data Step : List (List ℕ) → Logger → Logger → Type 0 where
  inits : (l : Logger) → is_exited l.state_ ≡ false → Step [] l (init_logger l)
  logs :
      (level : LogLevel) (line : List ℕ) (l : Logger)
      → Step (if is_above level l then [] else line ∷ []) l (logstring level line l)
  sets : (level : LogLevel) (l : Logger) → Step [] l (record l { level_ = level })
  waits : (l : Logger) → Step [] l (wait l)
  runs : (l m : Logger) → write_step l ≡ some m → Step [] l m

pub data Steps : List (List ℕ) → Logger → Logger → Type 0 where
  here : (l : Logger) → Steps [] l l
  then_ :
      (before more : List (List ℕ)) (l m n : Logger)
      → Steps before l m
      → Step more m n
      → Steps (before ++ more) l n
