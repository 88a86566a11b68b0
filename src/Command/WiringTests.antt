-- ===== src/Command/WiringTests.antt =====
-- A server that is started from a configuration, and instances of the theorems on it.
use go_clipboard.Base.{ℕ, none, Bytes, ascii, ◌==◌, [], ◌∷◌, ◌≢◌, pos, arith}
use go_clipboard.Base.Map.{Map, lookup, insert, Visits-self}
use go_clipboard.Config.Tests.{parsers, production, loaded, loads}
use go_clipboard.Clips.Store.{Store}
use go_clipboard.Clips.Fake.{StoredClip}
use go_clipboard.Clips.Fake.Contract.{fake_store}
use go_clipboard.RateLimit.{Entry, new_memory_limiter}
use go_clipboard.Http.{Request, Response, text}
use go_clipboard.Http.ClientIp.{Ip, Net, split}
use go_clipboard.Http.Clips.{Decoded, malformed}
use go_clipboard.Http.Host.{without_brackets}
use go_clipboard.Http.Mux.{choose, is_clean, find_handler}
use go_clipboard.Http.Server.{ServerState, register, append_method}
use go_clipboard.Http.App.{Settings, Moment, dispatch}
use go_clipboard.Command.Wiring.{wired_state, wired_settings, create_config, avail_config}
use go_clipboard.Command.Limits.{Run, begin, requested, IsCapped, wired-IsCapped}

program : Unit {0}
unfolding lookup insert ◌==◌ choose is_clean find_handler register split append_method wired_state
    wired_settings create_config avail_config new_memory_limiter without_brackets
program = tt

abbrev memory : Store (Map StoredClip)
memory = fake_store (λ m. m)

-- Every address is printed as one byte.
abbrev net : Net
net = record {
  split_host_port = λ s. none;
  parse_ip = λ s. none;
  ip_string = λ ip. ascii "1";
  trim_space = λ s. s;
  itoa = λ n. [];
  equal_fold = λ s t. s == t;
}

abbrev decode : ℕ → Bytes → Decoded
decode limit body = malformed

abbrev page : Request → Response
page r = record { status = 200; headers = []; body = text (ascii "page") }

abbrev settings : Settings (Map StoredClip)
settings = wired_settings loaded net memory decode page page

abbrev moment : Moment
moment = record {
  order = [];
  limit_now = 5;
  now = 5;
  db_now = 5;
  health = record { pool = none; migrations = none; server_time = none };
}

abbrev post : Request
post = record {
  method = ascii "POST";
  path = [];
  escaped = ascii "api" ∷ ascii "clips" ∷ [];
  segments = ascii "api" ∷ ascii "clips" ∷ [];
  remote_addr = [];
  host = ascii "paste.example";
  forwarded_for = [];
  body = [];
}

abbrev start : ServerState (Map StoredClip)
start = wired_state loaded []

posted : Run settings start (dispatch settings moment post start).1
unfolding program
posted = requested moment post (Visits-self {V = Entry} [] tt) begin

printed : (a : Ip) → ascii "1" ≢ []
printed a h = ground (arith, h)

wired-IsCapped_example :
    IsCapped (pos 10000) (dispatch settings moment post start).1.create_limiter
    × IsCapped (pos 10000) (dispatch settings moment post start).1.avail_limiter
unfolding program
wired-IsCapped_example = wired-IsCapped parsers production loaded loads settings [] printed posted
