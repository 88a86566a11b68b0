-- ===== src/Clips/Postgres/Tests.antt =====
-- Runs of internal/clips over a table whose texts hold no zero byte, and instances of the theorems on it.
use go_clipboard.Base.{
  ◌+◌, ◌≤◌, ◌<◌, ◌≡◌, refl, Bool, true, Option, none, Bytes, ascii, ◌==◌, [], ◌∷◌, All, all, String,
  err, ltb, arith,
}
use go_clipboard.Base.Map.{lookup, insert}
use go_clipboard.Clock.{Time}
use go_clipboard.Slug.{in_class, match_pattern, is_reserved, validate}
use go_clipboard.Slug.Rules.{IsSlugByte, validate-none_iff}
use go_clipboard.Db.{Table, queries, claim_statement, get_statement, not_a_text}
use go_clipboard.Clips.{Clip, failure, preset_10m, resolve_ttl}
use go_clipboard.Clips.Store.{Store, IsTextStore}
use go_clipboard.Clips.Postgres.{pg_store, claim_clip, get_live_clip}
use go_clipboard.Clips.Postgres.Contract.{IsTable, live_row, postgres-IsTextStore}
use go_clipboard.Clips.Service.{CreateInput, claim, created, create, read, read_result}
use go_clipboard.Clips.Service.Texts.{HasOutcome, create-texts}

no_zero : Bytes → Bool
no_zero s = all (λ c. ltb 0 c) s

program : Unit {0}
unfolding no_zero lookup insert ◌==◌ validate in_class match_pattern is_reserved resolve_ttl claim
    created create read read_result claim_clip get_live_clip claim_statement get_statement
program = tt

slug-no_zero : (s : Bytes) → All IsSlugByte s → no_zero s ≡ true
unfolding no_zero
slug-no_zero [] h = refl
slug-no_zero (c ∷ s) h = ground (arith, h.0, slug-no_zero s h.1)

names : (s : Bytes) → validate s ≡ none → no_zero s ≡ true
names s h = slug-no_zero s ((validate-none_iff s).0 h).charset

keeps_all : (t : Time) → t ≤ t
keeps_all t = omega arith

loses_none : (t : Time) → t < t + 1000
loses_none t = omega arith

abbrev store : Store Table
store = pg_store (queries (λ t. t) no_zero)

abbrev shown : Time → Bytes → Table → Option Clip
shown now slug t = live_row now (lookup slug t)

postgres-IsTextStore_example : IsTextStore no_zero store IsTable shown (λ t. t)
postgres-IsTextStore_example = postgres-IsTextStore (λ t. t) no_zero keeps_all loses_none

-- A body with a zero byte passes the service's checks and fails in the database.
abbrev with_zero : CreateInput
with_zero = record { slug = ascii "demo"; body = 104 ∷ 0 ∷ []; ttl = preset_10m }

zero_fails : create store 2000 2000 with_zero [] ≡ (err (failure not_a_text), [])
unfolding program
zero_fails = refl

zero_read : read store 2000 (0 ∷ []) [] ≡ err (failure not_a_text)
unfolding program
zero_read = refl

nothing-IsTable : IsTable []
unfolding lookup
nothing-IsTable = record { distinct = tt; keyed = λ k row h. cc }

create-texts_example :
    (m : String) × HasOutcome no_zero store IsTable shown
      (λ t. t)
      (postgres-IsTextStore (λ t. t) no_zero keeps_all loses_none)
      names
      2000
      2000
      with_zero
      []
      m
create-texts_example =
    create-texts no_zero store IsTable shown (λ t. t)
      (postgres-IsTextStore (λ t. t) no_zero keeps_all loses_none) names 2000 2000 with_zero []
      nothing-IsTable
