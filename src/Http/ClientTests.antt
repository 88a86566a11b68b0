-- ===== src/Http/ClientTests.antt =====
-- Runs of the key, the limiter and the host check of internal/httpapi and instances of their
-- theorems, with a small notation for addresses.
use go_clipboard.Base.{
  ℕ, ◌+◌, ◌*◌, ◌-◌, ◌≤◌, ◌≡◌, ◌≢◌, ◌↔◌, refl, false, Option, none, some, Bytes, ascii, ◌==◌, [],
  ◌∷◌, ◌++◌, pos, if◌then◌else◌, wrap64, arith, eqb,
}
use go_clipboard.Base.Map.{lookup, insert, delete}
use go_clipboard.Clock.{second, minute, sub}
use go_clipboard.RateLimit.{Entry, MemoryLimiter, allow, allow_found, make_room}
use go_clipboard.RateLimit.Retry.{IsOpen}
use go_clipboard.Http.{Request, Response, retry_after, content_type, write_error, handle_not_found}
use go_clipboard.Http.ClientIp.{
  Net, Ip, v4, v6, ClientIpConfig, comma, hop, is_trusted_hop, bucket_ip, client_ip, split,
  first_entry, chosen_ip,
}
use go_clipboard.Http.ClientIp.Split.{contains}
use go_clipboard.Http.ClientIp.Keys.{IsSameClient, client_ip-appended, bucket_ip-same_iff}
use go_clipboard.Http.Limiting.{rate_limit, too_many_requests, retry_seconds, whole_seconds}
use go_clipboard.Http.Limiting.Refusals.{retry_after_suffices}

-- The text before the first colon, if there is one.
abbrev before_colon : Bytes → Option Bytes
before_colon [] = none
before_colon (b ∷ s) =
    if eqb b 58
    then some []
    else (elim (before_colon s) [ none ↦ none | some host ↦ some (b ∷ host) ])

-- An address is written as its kind and one further byte.
abbrev parse : Bytes → Option Ip
parse [] = none
parse (kind ∷ []) = none
parse (kind ∷ n ∷ []) =
    if eqb kind 52 then some (v4 (n - 48)) else (if eqb kind 54 then some (v6 (n - 48)) else none)
parse (kind ∷ n ∷ m ∷ rest) = none

abbrev print : Ip → Bytes
print (v4 n) = 52 ∷ (n + 48) ∷ []
print (v6 n) = 54 ∷ (n + 48) ∷ []

abbrev trim : Bytes → Bytes
trim [] = []
trim (b ∷ s) = if eqb b 32 then trim s else b ∷ s

abbrev net : Net
net = record {
  split_host_port = before_colon;
  parse_ip = parse;
  ip_string = print;
  trim_space = trim;
  itoa = λ n. (n + 48) ∷ [];
  equal_fold = λ s t. s == t;
}

program : Unit {0}
unfolding lookup insert delete sub make_room allow allow_found wrap64 ◌==◌ contains client_ip
    chosen_ip is_trusted_hop hop bucket_ip split first_entry rate_limit too_many_requests
    retry_seconds whole_seconds write_error
program = tt

print-injective : (a b : Ip) → print a ≡ print b → a ≡ b
print-injective (v4 a) (v4 b) h = ground arith
print-injective (v4 a) (v6 b) h = ground arith
print-injective (v6 a) (v4 b) h = ground arith
print-injective (v6 a) (v6 b) h = ground arith

print_plain : (a : Ip) → contains 47 (print a) ≡ false
unfolding contains
print_plain (v4 a) = ground arith
print_plain (v6 a) = ground arith

print-nonempty : (a : Ip) → print a ≢ []
print-nonempty (v4 a) = ground arith
print-nonempty (v6 a) = ground arith

abbrev proxied : ClientIpConfig
proxied = record { trusted_proxy = ascii "41"; ipv6_prefix = pos 0 }

-- A request that the proxy at 41 passes on for 42, which wrote "47" into the header itself.
abbrev forwarded : Request
forwarded = record {
  method = [];
  path = [];
  escaped = [];
  segments = [];
  remote_addr = ascii "41:500";
  host = ascii "paste:443";
  forwarded_for = ascii "47" ++ (comma ∷ ascii " 42");
  body = [];
}

client_ip-appended_example : client_ip net forwarded proxied ≡ bucket_ip net (some (v4 2)) (pos 0)
unfolding program
client_ip-appended_example =
    client_ip-appended net forwarded proxied (ascii "47") (ascii " 42") (v4 2) refl refl refl refl
      refl

bucket_ip-same_iff_example :
    (bucket_ip net (some (v6 5)) (pos 127) ≡ bucket_ip net (some (v6 4)) (pos 127))
    ↔ IsSameClient (pos 127) (v6 5) (v6 4)
bucket_ip-same_iff_example =
    bucket_ip-same_iff net (pos 127) (v6 5) (v6 4) print-injective print_plain

-- The wrapped handler counts its calls.
abbrev counting : Request → ℕ → Response × ℕ
counting r s = (handle_not_found, s + 1)

abbrev used : Entry
used = record { count = 1; window_start = 1000 }

-- The client 42 has used up its window.
abbrev busy : MemoryLimiter
busy = record {
  rate = pos 1;
  window = pos minute;
  max_keys = pos 10;
  keys = (ascii "42", used) ∷ [];
}

busy-IsOpen : IsOpen 2000 minute (client_ip net forwarded proxied) used busy
unfolding program
busy-IsOpen = record {
  window_eq = refl;
  positive = omega arith;
  fits = omega arith;
  found = refl;
  started = omega arith;
  within = omega arith;
}

busy_refused : (allow busy.keys 2000 (client_ip net forwarded proxied) busy).0.allowed ≡ false
unfolding program
busy_refused = refl

-- The wait is a microsecond less than a minute, and the header says 59 seconds.
busy_header :
    (rate_limit net proxied counting busy.keys 2000 forwarded (some busy) 0).0.headers
    ≡ retry_after (pos 59) ∷ content_type "application/json" ∷ []
unfolding program
busy_header = refl

retry_after_suffices_example :
    ((rate_limit net proxied counting busy.keys 2000 forwarded (some busy) 0).0.status ≡ 429)
    × ((rate_limit net proxied counting busy.keys 2000 forwarded (some busy) 0).1 ≡ some busy)
    × ((rate_limit net proxied counting busy.keys 2000 forwarded (some busy) 0).2 ≡ 0)
    × (1 ≤ 59)
    × ((rate_limit net proxied counting busy.keys (2000 + 60 * second) forwarded (some busy) 7).0
        ≡ handle_not_found)
    × ((rate_limit net proxied counting busy.keys (2000 + 60 * second) forwarded (some busy) 7).2
        ≡ 8)
retry_after_suffices_example =
    retry_after_suffices net proxied counting busy.keys busy.keys 2000 (2000 + 60 * second) minute
      59 forwarded forwarded used busy 0 7 (content_type "application/json" ∷ []) busy-IsOpen
      busy_refused refl busy_header (omega arith)

-- After exactly the time that the header names, the same request is refused again.
refused_again :
    (rate_limit net proxied counting busy.keys
      (2000 + 59 * second)
      forwarded
      (some busy)
      0).0.status
    ≡ 429
unfolding program
refused_again = refl
