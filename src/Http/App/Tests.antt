-- ===== src/Http/App/Tests.antt =====
-- Two servers, over the store in memory and over the table, and an instance of the theorem on them.
use go_clipboard.Base.{
  ◌+◌, ◌<◌, true, Bool, ◌≤◌, ◌≡◌, refl, none, some, Bytes, ascii, ◌==◌, [], ◌∷◌, List, pos, arith,
  Option,
}
use go_clipboard.Base.Map.{Map, lookup, Visits-self, Distinct}
use go_clipboard.Clock.{Time}
use go_clipboard.Clips.{Clip}
use go_clipboard.Clips.Store.{Store, IsStore, IsTextStore-IsStore}
use go_clipboard.Clips.Fake.{StoredClip}
use go_clipboard.Clips.Fake.Contract.{live_clip, fake_store, fake-IsStore}
use go_clipboard.Clips.Postgres.{pg_store}
use go_clipboard.Clips.Postgres.Contract.{IsTable, live_row, postgres-IsTextStore}
use go_clipboard.Db.{Table, Querier, queries}
use go_clipboard.Http.{Request, text}
use go_clipboard.Http.Clips.{request}
use go_clipboard.Http.Server.{ServerState}
use go_clipboard.Http.App.{Settings, Moment, with_store}
use go_clipboard.Http.App.Parallel.{Twins}
use go_clipboard.Http.App.Agreement.{Turn, asked, swept, replies, replies_agree}

abbrev memory : Store (Map StoredClip)
memory = fake_store (λ m. m)

abbrev shown : Time → Bytes → Map StoredClip → Option Clip
shown now slug m = live_clip now (lookup slug m)

memory_law : IsStore memory Distinct shown (λ t. t)
memory_law = fake-IsStore (λ m. m) Visits-self

abbrev any_text : Bytes → Bool
any_text b = true

abbrev database : Querier Table
database = queries (λ t. t) any_text

abbrev shown_rows : Time → Bytes → Table → Option Clip
shown_rows now slug t = live_row now (lookup slug t)

keeps_all : (t : Time) → t ≤ t
keeps_all t = omega arith

loses_none : (t : Time) → t < t + 1000
loses_none t = omega arith

database_law : IsStore (pg_store database) IsTable shown_rows (λ t. t)
database_law =
    IsTextStore-IsStore any_text (pg_store database) IsTable shown_rows (λ t. t) (λ b. refl)
      (postgres-IsTextStore (λ t. t) any_text keeps_all loses_none)

no-IsTable : IsTable []
unfolding lookup
no-IsTable = record { distinct = tt; keyed = λ k row h. cc }

both_empty :
    (later : Time) (slug : Bytes) → 0 ≤ later → shown later slug [] ≡ shown_rows later slug []
unfolding lookup
both_empty later slug h = refl

-- Every body is taken for one note.
abbrev settings : Settings (Map StoredClip)
settings = record {
  net = record {
    split_host_port = λ s. none;
    parse_ip = λ s. none;
    ip_string = λ ip. [];
    trim_space = λ s. s;
    itoa = λ n. [];
    equal_fold = λ s t. s == t;
  };
  client_ip = record { trusted_proxy = []; ipv6_prefix = pos 64 };
  store = memory;
  decode = λ limit body.
      request (record { slug = ascii "demo"; body = ascii "hello"; ttl_seconds = some (pos 600) })
        true;
  files = none;
  redirect = λ r. record { status = 307; headers = []; body = text (ascii "") };
  hostname = [];
}

abbrev at : Time → Moment
at t = record {
  order = [];
  limit_now = t;
  now = t;
  db_now = t;
  health = record { pool = none; migrations = none; server_time = none };
}

abbrev sent : Bytes → List Bytes → Request
sent method segments = record {
  method = method;
  path = [];
  escaped = segments;
  segments = segments;
  remote_addr = [];
  host = [];
  forwarded_for = [];
  body = [];
}

abbrev turns : List Turn
turns =
    asked (at 5) (sent (ascii "POST") (ascii "api" ∷ ascii "clips" ∷ []))
    ∷ swept 50
    ∷ asked (at 60) (sent (ascii "GET") (ascii "api" ∷ ascii "clips" ∷ ascii "demo" ∷ []))
    ∷ []

abbrev in_memory : ServerState (Map StoredClip)
in_memory = record { create_limiter = none; avail_limiter = none; store = [] }

abbrev in_table : ServerState Table
in_table = record { create_limiter = none; avail_limiter = none; store = [] }

nothing-Distinct : Distinct {V = StoredClip} []
nothing-Distinct = tt

both-Twins :
    Twins settings Distinct shown
      (pg_store database)
      IsTable
      shown_rows
      (λ t. t)
      memory_law
      database_law
      0
      in_memory
      in_table
both-Twins = record {
  create_limiter = refl;
  avail_limiter = refl;
  stores = record { valid = nothing-Distinct; valid' = no-IsTable; same = both_empty };
}

replies_agree_example :
    replies settings turns in_memory
    ≡ replies (with_store settings (pg_store database)) turns in_table
replies_agree_example =
    replies_agree settings Distinct shown (pg_store database) IsTable shown_rows (λ t. t) memory_law
      database_law 0 turns in_memory in_table both-Twins
      (omega arith, (omega arith, (omega arith, tt)))
