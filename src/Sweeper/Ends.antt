-- ===== src/Sweeper/Ends.antt =====
-- internal/sweeper/sweeper.go: the loop ends when its context does.
use go_clipboard.Base.{
  ℕ, zero, suc, ◌+◌, ◌<◌, ◌≡◌, refl, ap, subst, ◌⊎◌, inl, inr, List, [], ◌∷◌, Option, some, Result,
  arith,
}
use go_clipboard.Clock.{Time}
use go_clipboard.Clips.{Error}
use go_clipboard.Sweeper.{Event, tick, done, Log, sweep_once, run, with_lines, received, loop}

-- `n` events from the `i`th on.
unfoldable pub received_from : ℕ → ℕ → (ℕ → Event) → List Event
received_from zero i events = []
received_from (suc n) i events = events i ∷ received_from n (i + 1) events

Event-cases : (e : Event) → (e ≡ done) ⊎ ((now : Time) × (e ≡ tick now))
Event-cases done = inl refl
Event-cases (tick now) = inr (now, refl)

module _ {S : Type 0} (deleter : Time → S → Result Error ℕ × S) where
  -- The next turn agrees with the run of the list.
  received-run :
      (e : Event) (rest : S → Option (List Log × S)) (more : List Event) (s : S)
      → ((s' : S) → rest s' ≡ some (run deleter more s'))
      → received deleter e rest s ≡ some (run deleter (e ∷ more) s)
  unfolding received run
  received-run done rest more s h = refl
  received-run (tick now) rest more s h =
      ap (with_lines deleter (sweep_once deleter now s).0) (h (sweep_once deleter now s).1)

  at : (events : ℕ → Event) (m n : ℕ) → m ≡ n → events m ≡ done → events n ≡ done
  at events m n same h = subst (λ x. events x ≡ done) same h

  received-done :
      (e : Event) (rest : S → Option (List Log × S)) (s : S)
      → e ≡ done
      → received deleter e rest s ≡ some (run deleter (e ∷ []) s)
  unfolding received run
  received-done e rest s h = rw h refl

  loop_from :
      (events : ℕ → Event) (fuel k i : ℕ) (s : S)
      → events (i + k) ≡ done
      → k < fuel
      → loop deleter fuel events i s ≡ some (run deleter (received_from (suc k) i events) s)
  unfolding loop received_from
  loop_from events zero k i s h le = absurd (omega arith)
  loop_from events (suc fuel) zero i s h le =
      received-done (events i) (loop deleter fuel events (i + 1)) s
        (at events (i + 0) i (omega arith) h)
  loop_from events (suc fuel) (suc k) i s h le =
      received-run (events i) _ (received_from (suc k) (i + 1) events) s (λ s'.
        loop_from events fuel k (i + 1) s' (at events (i + suc k) (i + 1 + k) (omega arith) h)
          (omega arith))

  -- Once the context is done the loop returns: if that is its event number `k`, more than `k` turns are
  -- enough, and what was logged and done to the store is what the events up to that one do.
  pub loop-run :
      (events : ℕ → Event) (k fuel : ℕ) (s : S)
      → events k ≡ done
      → k < fuel
      → loop deleter fuel events 0 s ≡ some (run deleter (received_from (suc k) 0 events) s)
  loop-run events k fuel s h le =
      loop_from events fuel k 0 s (at events k (0 + k) (omega arith) h) le
