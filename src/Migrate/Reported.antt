-- ===== src/Migrate/Reported.antt =====
-- internal/migrate/migrate.go and internal/httpapi/health.go: migrations as the health report shows them.
use go_clipboard.Base.{
  ◌≡◌, refl, sym, ◌∙◌, ℤ, Bool, ◌↔◌, ◌⊎◌, true, false, List, [], ◌∷◌, Option, none, some, ok, err,
  Result, String, arith,
}
use go_clipboard.Clock.{Duration}
use go_clipboard.Db.{Timestamptz, QueryError}
use go_clipboard.Database.{Ping, probe, pinged, server_time}
use go_clipboard.Migrate.{Source, Provider, Log, up, check_pending, status_of}
use go_clipboard.Migrate.Provided.{IsProvider, is_some_left, left-up}
use go_clipboard.Http.Health.{HealthDependencies, handle_health}
use go_clipboard.Http.Health.Contract.{IsMigrated, handle_health_iff}

-- The dependencies of the report that cmd/server wires, with a runner: what the ping, the runner and the
-- clock's query return.
unfoldable pub wired :
    {S : Type 0} → Provider S → Ping → Result QueryError Timestamptz → S → HealthDependencies
unfolding probe check_pending server_time
wired p ping time s = record {
  pool = some (probe (some ping));
  migrations = some (check_pending p s);
  server_time = some (server_time time);
}

pinged_iff :
    (latency : Duration) (e : Option String) → ((pinged latency e).reachable ≡ true) ↔ (e ≡ none)
unfolding pinged
pinged_iff latency none = (λ h. refl, λ h. refl)
pinged_iff latency (some e) = (λ h. absurd (ground (arith, h)), λ h. absurd (ground (arith, h)))

left_iff : (sources : List Source) → (is_some_left sources ≡ false) ↔ (sources ≡ [])
left_iff [] = (λ h. refl, λ h. refl)
left_iff (source ∷ sources) = (λ h. absurd (ground (arith, h)), λ h. absurd (ground (arith, h)))

-- A call that returned without an error.
abbrev pub IsOk : {A : Type 0} → Result String A → Type 0
IsOk {A = A} r = (a : A) × (r ≡ ok a)

status_of_iff :
    (has : Result String Bool) (version : Result String ℤ) (sources : List Source)
    → ((b : Bool) → has ≡ ok b → b ≡ is_some_left sources)
    → IsMigrated (some (status_of has version)) ↔ (IsOk has × IsOk version × (sources ≡ []))
unfolding status_of
status_of_iff (ok b) (ok v) sources law = (
  λ h. ((b, refl), (v, refl), (left_iff sources).0 (sym (law b refl) ∙ h)),
  λ (_, _, nothing). law b refl ∙ (left_iff sources).1 nothing,
)
status_of_iff (ok b) (err e) sources law =
    (λ h. absurd h, λ (_, (v, is_ok), _). absurd (ground (arith, is_ok)))
status_of_iff (err e) version sources law =
    (λ h. absurd h, λ ((b, is_ok), _, _). absurd (ground (arith, is_ok)))

module _ {S : Type 0} (p : Provider S) (done left : S → List Source) (law : IsProvider p done left)
    (ping : Ping) (time : Result QueryError Timestamptz) where
  -- Over a provider that keeps goose's contract, the report of a server with a runner is 200 exactly
  -- when the ping does not fail, HasPending and GetDBVersion do not fail, and no migration is left;
  -- and 503 otherwise.
  pub wired_iff :
      (s : S)
      → (((handle_health (wired p ping time s)).status ≡ 200) ↔ (
          (ping.error ≡ none) × IsOk (p.has_pending s) × IsOk (p.get_db_version s) × (left s ≡ [])))
        × (((handle_health (wired p ping time s)).status ≡ 200)
            ⊎ ((handle_health (wired p ping time s)).status ≡ 503))
  unfolding wired probe check_pending
  wired_iff s =
      let (healthy, either) = handle_health_iff (wired p ping time s) in
      let reached = pinged_iff ping.latency ping.error in
      let migrated =
        status_of_iff (p.has_pending s) (p.get_db_version s) (left s) (law.has_pending_lem s) in
      (
        (
          λ h.
              let (a, b) = healthy.0 h in
              let (has, version, nothing) = migrated.0 b in (reached.0 a, has, version, nothing),
          λ (a, has, version, nothing). healthy.1 (reached.1 a, migrated.1 (has, version, nothing)),
        ),
        either,
      )

  -- After an Up without an error the report is 200 if the ping and the two reads do not fail.
  pub up-wired :
      (s : S) (logs : List Log)
      → (up p s).0 ≡ (none, logs)
      → ping.error ≡ none
      → IsOk (p.has_pending (up p s).1)
      → IsOk (p.get_db_version (up p s).1)
      → (handle_health (wired p ping time (up p s).1)).status ≡ 200
  up-wired s logs h reached has version =
      (wired_iff (up p s).1).0.1 (reached, has, version, left-up p done left law s logs h)
