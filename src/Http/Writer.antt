-- ===== src/Http/Writer.antt =====
-- net/http's ResponseWriter as the handlers and the wrappers of internal/httpapi use it: what the calls of
-- its methods, in their order, send to the client.
pub mod Sent
use go_clipboard.Base.{ℕ, Bool, true, false, List, [], ◌∷◌, ◌++◌, Option, none, some, if◌then◌else◌}
use go_clipboard.Http.{
  Header, content_type, retry_after, allow, content_type_options, Payload, Response,
}

-- w.Header().Set, w.WriteHeader and w.Write.
pub data Op : Type 0 where
  set_header : Header → Op
  write_header : ℕ → Op
  write : Payload → Op

-- What has been sent: the status and the headers once they are written, and the body so far.
pub record Writer : Type 0 where
  pub pending : List Header
  pub sent : Option (ℕ × List Header)
  pub body : List Payload

abbrev pub new_writer : Writer
new_writer = record { pending = []; sent = none; body = [] }

-- A header replaces one of the same name.
abbrev pub same_name : Header → Header → Bool
same_name (content_type a) (content_type b) = true
same_name (retry_after a) (retry_after b) = true
same_name (allow a) (allow b) = true
same_name (content_type_options a) (content_type_options b) = true
same_name _ _ = false

unfoldable pub put_header : Header → List Header → List Header
put_header h [] = h ∷ []
put_header h (g ∷ hs) = if same_name h g then h ∷ hs else g ∷ put_header h hs

-- The status is written once; a second call is ignored.
unfoldable pub send_header : ℕ → Writer → Writer
send_header status w = elim w.sent [
  | none ↦ record w { sent = some (status, w.pending) }
  | some old ↦ w
]

-- A write sends the status 200 if none has been sent.
unfoldable pub step : Op → Writer → Writer
unfolding put_header send_header
step (set_header h) w = record w { pending = put_header h w.pending }
step (write_header status) w = send_header status w
step (write p) w = let w' = send_header 200 w in record w' { body = w'.body ++ (p ∷ []) }

unfoldable pub write_all : List Op → Writer → Writer
unfolding step
write_all [] w = w
write_all (op ∷ ops) w = write_all ops (step op w)

-- The status line and the headers that the client reads: 200 if the handler wrote none.
unfoldable pub sent_header : Writer → ℕ × List Header
sent_header w = elim w.sent [ none ↦ (200, w.pending) | some sent ↦ sent ]

unfoldable pub set_headers : List Header → List Op
set_headers [] = []
set_headers (h ∷ hs) = set_header h ∷ set_headers hs

-- The calls of a handler that writes one response.
unfoldable pub respond : Response → List Op
unfolding set_headers
respond resp = set_headers resp.headers ++ (write_header resp.status ∷ write resp.body ∷ [])
