-- ===== src/Sweeper/Tests.antt =====
-- Runs of internal/sweeper and instances of its theorems.
use go_clipboard.Base.{
  ℕ, ◌*◌, some, eqb, if◌then◌else◌, ◌≡◌, refl, ascii, pos, ◌==◌, List, [], ◌∷◌, arith,
}
use go_clipboard.Base.Map.{Map, lookup, insert, delete, Visits-self, Distinct}
use go_clipboard.Clips.Store.{Store}
use go_clipboard.Clips.Fake.{StoredClip, delete_loop}
use go_clipboard.Clips.Fake
use go_clipboard.Clips.Fake.Contract.{live_clip, fake_store, fake-IsStore}
use go_clipboard.Clips.Service.{CreateInput, create, read, availability, delete_expired}
use go_clipboard.Sweeper.{loop, Event, tick, done, swept_expired_clips, run, sweep_once, report}
use go_clipboard.Sweeper.Ends.{received_from, loop-run}
use go_clipboard.Sweeper.Reads.{run_invisible}

program : Unit {0}
unfolding lookup insert delete ◌==◌ run sweep_once report delete_expired Fake.delete_expired_clips
    delete_loop
program = tt

abbrev memory : Store (Map StoredClip)
memory = fake_store (λ m. m)

-- One clip that expires at 1000, and one at 5000.
abbrev two_clips : Map StoredClip
two_clips =
    (ascii "old", record { slug = ascii "old"; body = []; created_at = 1; expires_at = 1000 })
    ∷ (ascii "new", record { slug = ascii "new"; body = []; created_at = 2; expires_at = 5000 })
    ∷ []

two_clips-Distinct : Distinct two_clips
unfolding program
two_clips-Distinct = (refl, (refl, tt))

abbrev events : List Event
events = tick 500 ∷ tick 2000 ∷ done ∷ tick 9000 ∷ []

one_line : (run (delete_expired memory) events two_clips).0 ≡ swept_expired_clips 1 ∷ []
unfolding program
one_line = refl

-- A claim of the name that has expired.
abbrev claim_old : CreateInput
claim_old = record { slug = ascii "old"; body = ascii "again"; ttl = pos 0 }

run_invisible_example :
    (read memory 9000 (ascii "new") (run (delete_expired memory) events two_clips).1
      ≡ read memory 9000 (ascii "new") two_clips)
    × (availability memory 9000 (ascii "new") (run (delete_expired memory) events two_clips).1
        ≡ availability memory 9000 (ascii "new") two_clips)
    × ((create memory 9001 9000 claim_old (run (delete_expired memory) events two_clips).1).0
        ≡ (create memory 9001 9000 claim_old two_clips).0)
run_invisible_example =
    run_invisible memory Distinct (λ now slug m. live_clip now (lookup slug m)) (λ t. t)
      (fake-IsStore (λ m. m) Visits-self) events 9001 9000 (ascii "new") claim_old two_clips
      two_clips-Distinct (omega arith, (omega arith, tt))

-- Ticks every second, and the end of the context as the third event.
abbrev stream : ℕ → Event
stream n = if eqb n 2 then done else tick (n * 1000)

loop-run_example :
    loop (delete_expired memory) 9 stream 0 two_clips
    ≡ some (run (delete_expired memory) (received_from 3 0 stream) two_clips)
loop-run_example = loop-run (delete_expired memory) stream 2 9 two_clips refl (omega arith)
