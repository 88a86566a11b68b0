-- ===== src/Http/App/Agreement.antt =====
-- internal/httpapi/server.go and internal/sweeper: which answers a server gives does not depend on its store.
use go_clipboard.Base.{◌≤◌, ◌≡◌, refl, Bytes, List, [], ◌∷◌, Option}
use go_clipboard.Clock.{Time}
use go_clipboard.Clips.{Clip}
use go_clipboard.Clips.Store.{Store, IsStore}
use go_clipboard.Clips.Service.{delete_expired}
use go_clipboard.Clips.Service.Agreement.{Same-sweep}
use go_clipboard.Http.{Request, Response}
use go_clipboard.Http.Server.{ServerState}
use go_clipboard.Http.App.{with_store, Settings, Moment, dispatch}
use go_clipboard.Http.App.Parallel.{Twins, dispatch-Twins, Twins-later}

-- What a server does: it answers a request, or it sweeps.
pub data Turn : Type 0 where
  asked : Moment → Request → Turn
  swept : Time → Turn

abbrev pub turn_time : Turn → Time
turn_time (asked m r) = m.db_now
turn_time (swept db_now) = db_now

-- The clock of the store does not go back.
abbrev pub InOrder : Time → List Turn → Type 0
InOrder from [] = Unit {0}
InOrder from (turn ∷ turns) = (from ≤ turn_time turn) × InOrder (turn_time turn) turns

unfoldable pub replies : {S : Type 0} → Settings S → List Turn → ServerState S → List Response
unfolding dispatch
replies settings [] state = []
replies settings (asked m r ∷ turns) state =
    let (resp, state') = dispatch settings m r state in resp ∷ replies settings turns state'
replies settings (swept db_now ∷ turns) state =
    replies settings turns
      (record state { store = (delete_expired settings.store db_now state.store).1 })

module _ {S T : Type 0} (settings : Settings S) (IsValid : S → Type 0)
    (view : Time → Bytes → S → Option Clip) (su : Store T) (IsValid' : T → Type 0)
    (view' : Time → Bytes → T → Option Clip) (keep : Time → Time)
    (law : IsStore settings.store IsValid view keep) (law' : IsStore su IsValid' view' keep) where
  Twins-sweep :
      (from db_now : Time) (state : ServerState S) (state' : ServerState T)
      → Twins settings IsValid view su IsValid' view' keep law law' from state state'
      → from ≤ db_now
      → Twins settings IsValid view su IsValid' view' keep law law' db_now
          (record state { store = (delete_expired settings.store db_now state.store).1 })
          (record state' { store = (delete_expired su db_now state'.store).1 })
  Twins-sweep from db_now state state' h le = record {
    create_limiter = h.create_limiter;
    avail_limiter = h.avail_limiter;
    stores =
        Same-sweep settings.store IsValid view su IsValid' view' keep law law' from db_now
          state.store state'.store h.stores le;
  }

  -- Two servers with the same settings over two stores that keep the contract to the same precision: from
  -- states with equal limiters, whose stores show the same live clips from an instant on, any sequence
  -- of requests and sweeps by an ascending store clock gets equal responses, those of refused
  -- requests, of errors and of limited ones included.
  pub replies_agree :
      (from : Time) (turns : List Turn) (state : ServerState S) (state' : ServerState T)
      → Twins settings IsValid view su IsValid' view' keep law law' from state state'
      → InOrder from turns
      → replies settings turns state ≡ replies (with_store settings su) turns state'
  unfolding replies
  replies_agree from [] state state' h up = refl
  replies_agree from (asked m r ∷ turns) state state' h up =
      let (same, after) =
        dispatch-Twins settings IsValid view su IsValid' view' keep law law' m r state state' (
          Twins-later settings IsValid view su IsValid' view' keep law law' from m.db_now state
            state' up.0 h) in
      λ i. same i ∷ replies_agree m.db_now turns _ _ after up.1 i
  replies_agree from (swept db_now ∷ turns) state state' h up =
      replies_agree db_now turns _ _ (Twins-sweep from db_now state state' h up.0) up.1
