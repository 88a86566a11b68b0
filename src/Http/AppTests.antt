-- ===== src/Http/AppTests.antt =====
-- Runs of a whole server (internal/httpapi/server.go) and instances of its theorems.
use go_clipboard.Base.{
  ℕ, ◌+◌, ◌≡◌, ◌<◌, refl, true, Option, none, some, Bytes, ascii, ◌==◌, [], ◌∷◌, List, pos, arith,
  wrap64, if◌then◌else◌,
}
use mathlib.Core.List.{Mem}
use go_clipboard.Base.Map.{Map, lookup, insert, Visits-self, Distinct}
use go_clipboard.Clock.{Time}
use go_clipboard.Slug.{in_class, match_pattern, is_reserved, validate}
use go_clipboard.Clips.{Clip, ttl_from_seconds, resolve_ttl}
use go_clipboard.Clips.Store.{Store, IsStore}
use go_clipboard.Clips.Fake
use go_clipboard.Clips.Fake.{StoredClip}
use go_clipboard.Clips.Fake.Contract.{live_clip, fake_store, fake-IsStore}
use go_clipboard.Clips.Service
use go_clipboard.Http.{
  Request, text, read_response, write_json, write_error, handle_not_found, plain_error,
}
use go_clipboard.Http.ClientIp.{Net, split}
use go_clipboard.Http.Clips
use go_clipboard.Http.Clips.{CreateClipRequest, Decoded, request, malformed, max_create_body_bytes}
use go_clipboard.Http.Limiting.{rate_limit}
use go_clipboard.Http.Middleware.{
  Handler, returned, panicked, handler_panic, request_completed, chain, request_logging,
  panic_recovery,
}
use go_clipboard.Http.Middleware.Logged.{chain-panicked}
use go_clipboard.Http.Mux.{matched, redirected, choose, is_clean, find_handler}
use go_clipboard.Http.Server.{endpoint, read, ServerState, serve, register, append_method}
use go_clipboard.Http.Host.{is_allowed}
use go_clipboard.Http.Writer.Sent.{IsDistinct}
use go_clipboard.Http.Writer.{write_header, write, new_writer, write_all, sent_header}
use go_clipboard.Http.App.{Settings, Moment, chosen, dispatch, run_choice, run_target, handler}
use go_clipboard.Http.App.Postings.{Posting}
use go_clipboard.Http.App.History.{History, begin, requested, served-posted}
use go_clipboard.Http.App.Answers.{handler_lem}

program : Unit {0}
unfolding lookup insert ◌==◌ validate in_class match_pattern is_reserved resolve_ttl
    ttl_from_seconds wrap64 Service.create Service.claim Service.created Fake.claim_clip
    Clips.create_clip Clips.create_from Clips.create_decoded Clips.requested_ttl
    Clips.created_response Clips.write_clip_error Clips.get_clip Clips.clip_response Service.read
    Service.read_result Fake.get_live_clip rate_limit serve run_target run_choice dispatch choose
    is_clean find_handler register split append_method write_json write_error handle_not_found
    plain_error
program = tt

abbrev in_order : Map StoredClip → Map StoredClip
in_order m = m

abbrev memory : Store (Map StoredClip)
memory = fake_store in_order

abbrev shown : Time → Bytes → Map StoredClip → Option Clip
shown now slug m = live_clip now (lookup slug m)

memory_law : IsStore memory Distinct shown (λ t. t)
memory_law = fake-IsStore in_order Visits-self

abbrev note : CreateClipRequest
note = record { slug = ascii "demo"; body = ascii "hello"; ttl_seconds = some (pos 600) }

-- A decoder that takes a body that is not empty for the note.
abbrev decode : ℕ → Bytes → Decoded
decode limit [] = malformed
decode limit (c ∷ cs) = request note true

-- No address can be read, so every client is the unknown one.
abbrev net : Net
net = record {
  split_host_port = λ s. none;
  parse_ip = λ s. none;
  ip_string = λ ip. [];
  trim_space = λ s. s;
  itoa = λ n. [];
  equal_fold = λ s t. s == t;
}

abbrev settings : Settings (Map StoredClip)
settings = record {
  net = net;
  client_ip = record { trusted_proxy = []; ipv6_prefix = pos 64 };
  store = memory;
  decode = decode;
  files = none;
  redirect = λ r. record { status = 307; headers = []; body = text (ascii "") };
  hostname = ascii "clip.example";
}

abbrev at : Time → Moment
at t = record {
  order = [];
  limit_now = t;
  now = t;
  db_now = t;
  health = record { pool = none; migrations = none; server_time = none };
}

abbrev asked : Bytes → List Bytes → Bytes → Request
asked method segments body = record {
  method = method;
  path = [];
  escaped = segments;
  segments = segments;
  remote_addr = [];
  host = ascii "clip.example";
  forwarded_for = [];
  body = body;
}

abbrev post : Request
post = asked (ascii "POST") (ascii "api" ∷ ascii "clips" ∷ []) (ascii "{}")

abbrev get : Request
get = asked (ascii "GET") (ascii "api" ∷ ascii "clips" ∷ ascii "demo" ∷ []) []

abbrev start : ServerState (Map StoredClip)
start = record { create_limiter = none; avail_limiter = none; store = [] }

abbrev posted : Posting
posted = record { slug = ascii "demo"; body = ascii "hello"; expires = 600000000005 }

abbrev held : ServerState (Map StoredClip)
held = (dispatch settings (at 5) post start).1

nothing-Distinct : Distinct {V = StoredClip} []
unfolding program
nothing-Distinct = tt

nothing_shown : (now : Time) (slug : Bytes) → shown now slug [] ≡ none
unfolding program
nothing_shown now slug = refl

slug_read : chosen settings (at 60) get ≡ matched (endpoint read) (ascii "demo" ∷ [])
unfolding program
slug_read = refl

run_of_post : History settings start 5 (posted ∷ []) held
unfolding program
run_of_post = requested (at 5) post (omega arith) (begin 0)

answered :
    (dispatch settings (at 60) get held).0.body
    ≡ read_response (ascii "demo") (ascii "hello") 600000000005 60
unfolding program
answered = refl

served-posted_example :
    (ascii "demo" ≡ ascii "demo") × Mem posted (posted ∷ []) × (60 < 600000000005)
served-posted_example =
    served-posted Distinct shown settings (λ t. t) memory_law start nothing-Distinct nothing_shown
      run_of_post (at 60) get (ascii "demo" ∷ []) (ascii "demo") (ascii "hello") 600000000005 60
      (omega arith) slug_read answered

answer-IsDistinct : IsDistinct [] (dispatch settings (at 60) get held).0.headers
unfolding program
answer-IsDistinct = (tt, tt)

handler_lem_example :
    let (run, s') = handler settings (at 60) get held in
    let (resp, s'') =
      if is_allowed net (ascii "clip.example") get.host
      then dispatch settings (at 60) get held
      else (plain_error (ascii "host not allowed") 421, held) in
    (run.ending ≡ returned)
    × (sent_header (write_all run.ops new_writer) ≡ (resp.status, resp.headers))
    × ((write_all run.ops new_writer).body ≡ resp.body ∷ [])
    × (run.log ≡ (
        if is_allowed net (ascii "clip.example") get.host
        then request_completed get.method get.path resp.status ∷ []
        else []))
    × (s' ≡ s'')
handler_lem_example = handler_lem settings (at 60) get held answer-IsDistinct

-- A handler that sends a status, and panics before the body is complete.
abbrev breaks_off : Handler ℕ
breaks_off r n = (
  record {
    ops = write_header 200 ∷ write (text (ascii "partial")) ∷ [];
    ending = panicked;
    log = [];
  },
  n + 1,
)

chain-panicked_example :
    let (run, n) = chain breaks_off (request_logging ∷ panic_recovery ∷ []) get 0 in
    (run.ending ≡ returned)
    × (n ≡ 1)
    × (run.log ≡ handler_panic ∷ request_completed (ascii "GET") [] 500 ∷ [])
    × ((sent_header (write_all run.ops new_writer)).0 ≡ 200)
unfolding write_all sent_header
chain-panicked_example = chain-panicked breaks_off get 0 refl

-- An empty segment is redirected before patterns are compared.
double_slash :
    chosen settings
      (at 60)
      (record get { escaped = ascii "api" ∷ [] ∷ ascii "clips" ∷ ascii "demo" ∷ [] })
    ≡ redirected
unfolding program
double_slash = refl
