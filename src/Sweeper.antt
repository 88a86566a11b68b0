-- ===== src/Sweeper.antt =====
-- internal/sweeper/sweeper.go: the loop that deletes expired clips at an interval.
-- The loop is run on the events that its `select` receives, in their order: a tick, with what the
-- store's clock shows during the sweep, or the end of the context. What is logged is the output.
pub mod Reads
pub mod Ends
mod Tests
use go_clipboard.Base.{
  ℕ, zero, suc, ◌+◌, ltb, Option, none, some, List, [], ◌∷◌, ◌++◌, Result, ok, err, if◌then◌else◌,
}
use go_clipboard.Clock.{Time}
use go_clipboard.Clips.{Error}

pub data Event : Type 0 where
  tick : Time → Event
  done : Event

pub data Log : Type 0 where
  clip_sweep_failed : Error → Log
  swept_expired_clips : ℕ → Log

unfoldable pub report : Result Error ℕ → List Log
report (err e) = clip_sweep_failed e ∷ []
report (ok deleted) = if ltb 0 deleted then swept_expired_clips deleted ∷ [] else []

-- `deleter` is the DeleteExpired of an ExpiryDeleter, over states `S`.
module _ {S : Type 0} (deleter : Time → S → Result Error ℕ × S) where
  unfoldable pub sweep_once : Time → S → List Log × S
  unfolding report
  sweep_once now s = let (result, s') = deleter now s in (report result, s')

  unfoldable pub run : List Event → S → List Log × S
  unfolding sweep_once
  run [] s = ([], s)
  run (done ∷ events) s = ([], s)
  run (tick now ∷ events) s =
      let (lines, s') = sweep_once now s in let (more, s'') = run events s' in (lines ++ more, s'')

  abbrev pub with_lines : List Log → Option (List Log × S) → Option (List Log × S)
  with_lines lines none = none
  with_lines lines (some (more, s)) = some (lines ++ more, s)

  -- What follows the receipt of an event; `rest` is the next turn of the loop.
  unfoldable pub received : Event → (S → Option (List Log × S)) → S → Option (List Log × S)
  unfolding sweep_once
  received done rest s = some ([], s)
  received (tick now) rest s = let (lines, s') = sweep_once now s in with_lines lines (rest s')

  -- The loop on an endless sequence of events from the `i`th on, for `fuel` turns at most.
  unfoldable pub loop : ℕ → (ℕ → Event) → ℕ → S → Option (List Log × S)
  unfolding received
  loop zero events i s = none
  loop (suc fuel) events i s = received (events i) (loop fuel events (i + 1)) s
