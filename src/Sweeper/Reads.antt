-- ===== src/Sweeper/Reads.antt =====
-- internal/sweeper/sweeper.go: what clients see of the sweeper.
use go_clipboard.Base.{◌≤◌, ◌≡◌, refl, sym, ◌∙◌, ap, Bytes, List, [], ◌∷◌, Option}
use go_clipboard.Clock.{Time}
use go_clipboard.Clips.{Clip}
use go_clipboard.Clips.Store.{Store, IsStore}
use go_clipboard.Clips.Service.{CreateInput, create, read, availability, delete_expired}
use go_clipboard.Clips.Service.Create.{outcome, create-outcome}
use go_clipboard.Clips.Service.Reading.{read-view, availability-hint}
use go_clipboard.Sweeper.{Event, tick, done, run}

-- No tick that the loop receives comes after the instant.
abbrev pub TicksUntil : Time → List Event → Type 0
TicksUntil later [] = Unit {0}
TicksUntil later (done ∷ events) = Unit {0}
TicksUntil later (tick now ∷ events) = (now ≤ later) × TicksUntil later events

module _ {S : Type 0} (st : Store S) (IsValid : S → Type 0) (view : Time → Bytes → S → Option Clip)
    (keep : Time → Time) (law : IsStore st IsValid view keep) where
  run-IsValid :
      (events : List Event) (s : S) → IsValid s → IsValid (run (delete_expired st) events s).1
  unfolding run delete_expired
  run-IsValid [] s valid = valid
  run-IsValid (done ∷ events) s valid = valid
  run-IsValid (tick now ∷ events) s valid =
      run-IsValid events (delete_expired st now s).1 (law.sweep-IsValid now s valid)

  view-run :
      (events : List Event) (later : Time) (slug : Bytes) (s : S)
      → IsValid s
      → TicksUntil later events
      → view later slug (run (delete_expired st) events s).1 ≡ view later slug s
  unfolding run delete_expired
  view-run [] later slug s valid until = refl
  view-run (done ∷ events) later slug s valid until = refl
  view-run (tick now ∷ events) later slug s valid (first, until) =
      view-run events later slug (delete_expired st now s).1 (law.sweep-IsValid now s valid) until
      ∙ law.view-sweep now later slug s valid first

  -- However often the sweeper runs, and whenever it is stopped: over a store that keeps its contract,
  -- at any instant that no tick before the end comes after, a read, a hint and a claim return what they
  -- would return if it had not run.
  pub run_invisible :
      (events : List Event) (now later : Time) (slug : Bytes) (input : CreateInput) (s : S)
      → IsValid s
      → TicksUntil later events
      → (read st later slug (run (delete_expired st) events s).1 ≡ read st later slug s)
        × (availability st later slug (run (delete_expired st) events s).1
            ≡ availability st later slug s)
        × ((create st now later input (run (delete_expired st) events s).1).0
            ≡ (create st now later input s).0)
  run_invisible events now later slug input s valid until =
      let s' = (run (delete_expired st) events s).1 in
      let valid' = run-IsValid events s valid in
      let same = view-run events later slug s valid until in
      (
        rw (read-view st IsValid view keep law later slug s' valid', same)
            (sym (read-view st IsValid view keep law later slug s valid)),
        rw (availability-hint st IsValid view keep law later slug s' valid', same)
            (sym (availability-hint st IsValid view keep law later slug s valid)),
        create-outcome st IsValid view keep law now later input s' valid'
            ∙ ap (λ c. outcome keep now input c) (view-run events later input.slug s valid until)
            ∙ sym (create-outcome st IsValid view keep law now later input s valid),
      )
