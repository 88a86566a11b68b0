-- ===== src/Openapi/Runs.antt =====
-- docs/api/openapi.yaml against a whole run of the server.
use go_clipboard.Base.{◌≡◌, ◌==◌, inl, inr, Bool, true, false, Bytes, List, [], ◌∷◌, Option, some}
use go_clipboard.Clock.{Time}
use go_clipboard.Clips.{Clip}
use go_clipboard.Clips.Store.{IsStore}
use go_clipboard.Clips.Service
use go_clipboard.Clips.Service.Reading.{create-IsValid}
use go_clipboard.Http.{Request}
use go_clipboard.Http.Mux.{is_clean}
use go_clipboard.Http.Server.{Endpoint, ServerState}
use go_clipboard.Http.Server.Tables.{page_of}
use go_clipboard.Http.App.{Settings, Moment, dispatch}
use go_clipboard.Http.App.Postings.{Posting, dispatch-cases}
use go_clipboard.Http.App.History.{History, begin, requested, swept}
use go_clipboard.Openapi.Document.{responses, is_declared}
use go_clipboard.Openapi.Served.{serve-is_declared_contract}
use go_clipboard.Openapi.Dispatched.{operation, dispatch_lem, not_allowed-is_declared}

module _ {S : Type 0} (settings : Settings S) (IsValid : S → Type 0)
    (view : Time → Bytes → S → Option Clip) (keep : Time → Time)
    (law : IsStore settings.store IsValid view keep) (start : ServerState S)
    (valid : IsValid start.store) where
  History-IsValid :
      {now : Time} {posted : List Posting} {state : ServerState S}
      → History settings start now posted state
      → IsValid state.store
  unfolding Service.delete_expired
  History-IsValid (begin now) = valid
  History-IsValid (requested {state = state} m r le run) =
      let before = History-IsValid run in
      elim (dispatch-cases settings IsValid view keep law m r state before) [
        | inl (kept, nothing) ↦ rw kept before
        | inr p ↦ rw p.state (
            create-IsValid settings.store IsValid view keep law m.now m.db_now p.input state.store
              before)
      ]
  History-IsValid (swept {state = state} db_now le run) =
      law.sweep-IsValid db_now state.store (History-IsValid run)

  module _ (format : Time → Bytes) (is_date_time : Bytes → Bool)
      (printed : (t : Time) → is_date_time (format t) ≡ true) where
    -- Over a store that keeps its contract and begins in a valid state, after any requests and sweeps in any order, by a store clock that
    -- does not go back, a request for a path that the API document describes, by any method, is answered
    -- by a response that the document declares for the path's operation, in its status, its header and
    -- the schema of its JSON: none is answered by an internal error. The method is not empty, and the
    -- path is clean. Every instant is printed as a date-time.
    pub dispatch-is_declared_run :
        {now : Time} {posted : List Posting} {state : ServerState S} (m : Moment) (r : Request)
        (a : Bytes) (parts : List Bytes) (e : Endpoint)
        → History settings start now posted state
        → is_clean r.escaped ≡ true
        → r.segments ≡ a ∷ parts
        → ([] == r.method) ≡ false
        → operation (page_of (a ∷ parts)) ≡ some e
        → is_declared format is_date_time (dispatch settings m r state).0 (responses e) ≡ true
    dispatch-is_declared_run {state = state} m r a parts e run =
        dispatch_lem settings m r state
          (λ x resp. is_declared format is_date_time resp (responses x) ≡ true)
          (λ x slug.
            serve-is_declared_contract format is_date_time printed settings.net settings.client_ip
              settings.decode m.health settings.store IsValid view keep law x m.order m.limit_now
              m.now m.db_now slug r state (History-IsValid run))
          (not_allowed-is_declared format is_date_time printed) a parts e
