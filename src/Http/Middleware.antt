-- ===== src/Http/Middleware.antt =====
-- internal/httpapi/middleware.go: the wrappers that log requests and recover from panics, and their
-- chain. A handler is what it calls of its ResponseWriter, how it ends, and the lines that the
-- wrappers log of it; the duration in a log line is left out.
pub mod Logged
use go_clipboard.Base.{ℕ, Bytes, List, [], ◌∷◌, ◌++◌, Option}
use go_clipboard.Http.{Request, Response, write_internal_error, write_error}
use go_clipboard.Http.Writer.{Op, set_header, write_header, write, respond}

pub data Ending : Type 0 where
  returned panicked : Ending

pub data LogLine : Type 0 where
  request_completed : Bytes → Bytes → ℕ → LogLine
  handler_panic : LogLine

pub record Run : Type 0 where
  pub ops : List Op
  pub ending : Ending
  pub log : List LogLine

abbrev pub Handler : Type 0 → Type 0
Handler S = Request → S → Run × S

-- The status of the recorder after the calls: that of the last WriteHeader, and before any the one
-- it was made with.
unfoldable pub recorded : List Op → ℕ → ℕ
recorded [] status = status
recorded (set_header h ∷ ops) status = recorded ops status
recorded (write_header new ∷ ops) status = recorded ops new
recorded (write p ∷ ops) status = recorded ops status

unfoldable pub log_request : Request → Run → Ending → Run
unfolding recorded
log_request r run returned = record run {
  log = run.log ++ (request_completed r.method r.path (recorded run.ops 200) ∷ []);
}
log_request r run panicked = run

unfoldable pub recover : Run → Ending → Run
unfolding respond
recover run returned = run
recover run panicked = record {
  ops = run.ops ++ respond (write_error 500 "internal_error" "an unexpected error occurred");
  ending = returned;
  log = run.log ++ (handler_panic ∷ []);
}

module _ {S : Type 0} where
  -- The line is logged after `next` has returned, so a panic in it passes by.
  unfoldable pub request_logging : Handler S → Handler S
  unfolding log_request
  request_logging next r s = let (run, s') = next r s in (log_request r run run.ending, s')

  unfoldable pub panic_recovery : Handler S → Handler S
  unfolding recover
  panic_recovery next r s = let (run, s') = next r s in (recover run run.ending, s')

  -- The loop goes from the last wrapper to the first.
  unfoldable pub chain : Handler S → List (Handler S → Handler S) → Handler S
  chain handler [] = handler
  chain handler (middleware ∷ middlewares) = middleware (chain handler middlewares)
