-- ===== src/Openapi/Tests.antt =====
-- The handlers against the API document at concrete requests.
use go_clipboard.Base.{
  ℕ, ◌≡◌, ◌≢◌, refl, ◌⊎◌, none, some, Bytes, ascii, Bool, true, false, ◌==◌, [], ◌∷◌, pos, Result,
  ok, err, ◌↔◌, arith,
}
use go_clipboard.Base.Map.{Map, lookup, Visits-self, Distinct}
use go_clipboard.Clock.{Time, Duration}
use go_clipboard.Clips.{ttl_from_seconds}
use go_clipboard.Db.{Querier, failed}
use go_clipboard.Clips.Fake.{StoredClip}
use go_clipboard.Clips.Fake.Contract.{live_clip, fake_store, fake-IsStore}
use go_clipboard.Clips.Postgres.{pg_store}
use go_clipboard.Http.{Request, write_internal_error, handle_not_found}
use go_clipboard.Http.ClientIp.{Net, ClientIpConfig}
use go_clipboard.Http.Clips.{Decoded, request}
use go_clipboard.Http.Health.{HealthDependencies}
use go_clipboard.Http.Server.{create, read, ServerState, register}
use go_clipboard.Http.Server.Methods.{all_routes}
use go_clipboard.Http.Mux.{choose, is_clean}
use go_clipboard.Openapi.Generated.{handler_of, is_valid_ttl}
use go_clipboard.Openapi.Generated.Lifetimes.{ttl_from_seconds-is_valid_ttl}
use go_clipboard.Openapi.Generated.Agreement.{
  run_chosen, at_endpoint, openapi_server, handler_of_lem,
}
use go_clipboard.Openapi.Document.{responses, is_declared}
use go_clipboard.Http.Server.Tables.{page_of, api_page}
use go_clipboard.Http.App.{Settings, Moment, with_store, dispatch}
use go_clipboard.Openapi.Runs.{dispatch-is_declared_run}
use go_clipboard.Http.App.History.{begin, requested}
use go_clipboard.Openapi.Dispatched.{operation, dispatch-is_declared}

program : Unit {0}
unfolding ◌==◌
program = tt

-- One instant is written, and nothing else is a date-time.
abbrev format : Time → Bytes
format t = ascii "1970-01-01T00:00:00Z"

abbrev is_date_time : Bytes → Bool
is_date_time s = s == ascii "1970-01-01T00:00:00Z"

printed : (t : Time) → is_date_time (format t) ≡ true
unfolding program
printed t = refl

abbrev net : Net
net = record {
  split_host_port = λ s. none;
  parse_ip = λ s. none;
  ip_string = λ ip. [];
  trim_space = λ s. s;
  itoa = λ n. [];
  equal_fold = λ s t. s == t;
}

abbrev config : ClientIpConfig
config = record { trusted_proxy = []; ipv6_prefix = pos 64 }

abbrev decode : ℕ → Bytes → Decoded
decode limit body = request (record { slug = body; body = body; ttl_seconds = none }) true

abbrev deps : HealthDependencies
deps = record { pool = none; migrations = none; server_time = none }

abbrev posted : Request
posted = record {
  method = ascii "POST";
  path = ascii "/api/clips";
  escaped = ascii "api" ∷ ascii "clips" ∷ [];
  segments = ascii "api" ∷ ascii "clips" ∷ [];
  remote_addr = [];
  host = [];
  forwarded_for = [];
  body = ascii "note";
}

-- Queries over a connection that is lost.
abbrev lost : Querier (Map StoredClip)
lost = record {
  claim_clip = λ now params s. (err (failed "lost"), s);
  get_live_clip = λ now slug s. err (failed "lost");
  delete_expired_clips = λ now s. (err (failed "lost"), s);
  server_time = λ now s. err (failed "lost");
  slug_is_live = λ now slug s. err (failed "lost");
}

abbrev state : ServerState (Map StoredClip)
state = record { create_limiter = none; avail_limiter = none; store = [] }

named : create ≡ read → ascii "note" ≢ []
named same h = ground (arith, h)

abbrev settings : Settings (Map StoredClip)
settings = record {
  net = net;
  client_ip = config;
  store = fake_store (λ m. m);
  decode = decode;
  files = none;
  redirect = λ r. handle_not_found;
  hostname = [];
}

abbrev moment : Moment
moment = record { order = []; limit_now = 9; now = 9; db_now = 9; health = deps }

given : ([] == ascii "POST") ≡ false
unfolding program
given = refl

path_is_clean : is_clean posted.escaped ≡ true
unfolding program is_clean
path_is_clean = refl

posts_clips : operation (page_of (ascii "api" ∷ ascii "clips" ∷ [])) ≡ some create
unfolding program operation page_of api_page
posts_clips = refl

dispatch-is_declared_example :
    (is_declared format is_date_time
        (dispatch (with_store settings (pg_store lost)) moment posted state).0
        (responses create)
      ≡ true)
    ⊎ ((dispatch (with_store settings (pg_store lost)) moment posted state).0
        ≡ write_internal_error)
dispatch-is_declared_example =
    dispatch-is_declared format is_date_time printed settings lost moment posted state (ascii "api")
      (ascii "clips" ∷ []) create path_is_clean refl given posts_clips

nothing-Distinct : Distinct {V = StoredClip} []
unfolding Distinct
nothing-Distinct = tt

abbrev bind : Bytes → Result Bytes Bytes
bind slug = ok slug

abbrev reading : Request
reading = record {
  method = ascii "GET";
  path = ascii "/api/clips/note";
  escaped = ascii "api" ∷ ascii "clips" ∷ ascii "note" ∷ [];
  segments = ascii "api" ∷ ascii "clips" ∷ ascii "note" ∷ [];
  remote_addr = [];
  host = [];
  forwarded_for = [];
  body = [];
}

is_get : ([] == ascii "GET") ≡ false
unfolding program
is_get = refl

handler_of_lem_example :
    run_chosen
      (λ r. handle_not_found)
      (choose
        (handler_of bind (λ n. []) (openapi_server settings moment))
        reading.method
        reading.segments)
      reading
      []
    ≡ at_endpoint
        (λ r. handle_not_found)
        settings
        moment
        (choose (register false all_routes) reading.method reading.segments)
        reading
        []
handler_of_lem_example =
    handler_of_lem (λ r. handle_not_found) settings moment bind (λ n. []) (λ slug named. refl) false
      (ascii "api") (ascii "clips" ∷ ascii "note" ∷ []) reading [] refl is_get

ttl_from_seconds-is_valid_ttl_example :
    (is_valid_ttl (pos 3600) ≡ true) ↔ ((d : Duration) × (ttl_from_seconds (pos 3600) ≡ ok d))
ttl_from_seconds-is_valid_ttl_example = ttl_from_seconds-is_valid_ttl (pos 3600)

reading_is_clean : is_clean reading.escaped ≡ true
unfolding program is_clean
reading_is_clean = refl

reads_clip : operation (page_of (ascii "api" ∷ ascii "clips" ∷ ascii "note" ∷ [])) ≡ some read
unfolding program operation page_of api_page
reads_clip = refl

dispatch-is_declared_run_example :
    is_declared format is_date_time
      (dispatch settings moment reading (dispatch settings moment posted state).1).0
      (responses read)
    ≡ true
dispatch-is_declared_run_example =
    dispatch-is_declared_run settings Distinct (λ now slug m. live_clip now (lookup slug m))
      (λ t. t) (fake-IsStore (λ m. m) Visits-self) state nothing-Distinct format is_date_time
      printed moment reading (ascii "api") (ascii "clips" ∷ ascii "note" ∷ []) read
      (requested moment posted (omega arith) (begin 0)) reading_is_clean refl is_get reads_clip
