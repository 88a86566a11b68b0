-- ===== src/Clips/Service/Texts.antt =====
-- internal/clips/service.go: `Create` over a store that fails for a byte string that is no text.
use go_clipboard.Base.{
  ◌≡◌, refl, ap, sym, ◌∙◌, ◌⊎◌, inl, inr, Bool, true, false, ◌&&◌, Option, none, some, Bytes,
  String, Result, Result-cases, ok, err, if◌then◌else◌, Bool-cases, Option-cases, ltb, length,
}
use go_clipboard.Clock.{Time, Duration, add}
use go_clipboard.Slug.{validate}
use go_clipboard.Clips.{Error, slug_in_use, failure, Clip, max_body_bytes, resolve_ttl}
use go_clipboard.Clips.Store.{Store, IsTextStore}
use go_clipboard.Clips.Service.{CreateInput, CreateResult, claim, create}
use go_clipboard.Clips.Service.Create.{expiry, outcome}

-- The result of `Create`: what it would be if the name were free tells whether the input breaks a rule.
unfoldable pub text_outcome :
    (Time → Time) → Time → CreateInput → Bool → String → Option Clip → Result Error CreateResult
unfolding outcome
text_outcome keep now input text m live = elim (outcome keep now input none) [
  | err e ↦ err e
  | ok r ↦ if text then outcome keep now input live else err (failure m)
]

outcome-live :
    (keep : Time → Time) (now : Time) (input : CreateInput) (ttl : Duration) (live : Option Clip)
    → validate input.slug ≡ none
    → ltb max_body_bytes (length input.body) ≡ false
    → resolve_ttl input.ttl ≡ ok ttl
    → outcome keep now input live ≡ elim live [
      | some c ↦ err slug_in_use
      | none ↦ ok (record { slug = input.slug; expires_at = expiry keep now ttl })
    ]
unfolding outcome
outcome-live keep now input ttl live named fits chosen =
    rw (named, outcome) (rw (fits, chosen) refl)

module _ {S : Type 0} (is_text : Bytes → Bool) (st : Store S) (IsValid : S → Type 0)
    (view : Time → Bytes → S → Option Clip) (keep : Time → Time)
    (law : IsTextStore is_text st IsValid view keep)
    (names : (b : Bytes) → validate b ≡ none → is_text b ≡ true) (now db_now : Time)
    (input : CreateInput) (s : S) where
  both_texts :
      validate input.slug ≡ none
      → is_text input.body ≡ true
      → (is_text input.slug && is_text input.body) ≡ true
  both_texts named text = rw (names input.slug named, text) refl

  claim_free :
      (ttl : Duration)
      → IsValid s
      → (is_text input.slug && is_text input.body) ≡ true
      → view db_now input.slug s ≡ none
      → (claim st now db_now input ttl s).0
        ≡ ok (record { slug = input.slug; expires_at = expiry keep now ttl })
  unfolding claim
  claim_free ttl valid texts free =
      rw (law.claim_free db_now input.slug input.body now (add now ttl) s valid texts free) refl

  claim_taken :
      (ttl : Duration) (c : Clip)
      → IsValid s
      → (is_text input.slug && is_text input.body) ≡ true
      → view db_now input.slug s ≡ some c
      → claim st now db_now input ttl s ≡ (err slug_in_use, s)
  unfolding claim
  claim_taken ttl c valid texts live =
      rw (law.claim_taken db_now input.slug input.body now (add now ttl) c s valid texts live) refl

  claim_refused :
      (ttl : Duration)
      → validate input.slug ≡ none
      → is_text input.body ≡ false
      → (m : String) × (claim st now db_now input ttl s ≡ (err (failure m), s))
  unfolding claim
  claim_refused ttl named bad =
      let not_both : (is_text input.slug && is_text input.body) ≡ false =
        rw (names input.slug named, bad) refl in
      let (m, e) = law.claim_refused db_now input.slug input.body now (add now ttl) s not_both in
      (m, rw e refl)

  -- The result of `Create` with the error `m` of the database, and a store that a failure leaves as it was.
  abbrev pub HasOutcome : String → Type 0
  HasOutcome m =
      ((create st now db_now input s).0
        ≡ text_outcome keep now input (is_text input.body) m (view db_now input.slug s))
      × (((r : CreateResult) × ((create st now db_now input s).0 ≡ ok r))
          ⊎ ((create st now db_now input s).1 ≡ s))

  with_message : (m : String) → HasOutcome m → (m' : String) × HasOutcome m'
  with_message m h = (m, h)

  -- What `Create` does over a store that fails for what is no text, if every valid name is a text: an
  -- input that breaks a rule is refused for the first rule that it breaks; any other is refused with an
  -- error of the database, neither "in use" nor one of the rules', if its body is no text; and else the
  -- name is claimed or in use, as the live clips say. A `Create` that fails changes nothing.
  pub create-texts : IsValid s → (m : String) × HasOutcome m
  unfolding create outcome text_outcome
  create-texts valid = elim (Option-cases (validate input.slug)) [
    | inr (e, bad) ↦ with_message "" (rw (bad, create, text_outcome, outcome) (refl, inr refl))
    | inl named ↦ elim (Bool-cases (ltb max_body_bytes (length input.body))) [
      | inl long ↦
          with_message "" (rw (named, create, text_outcome, outcome) (rw long (refl, inr refl)))
      | inr fits ↦ elim (Result-cases (resolve_ttl input.ttl)) [
        | inr (e, refused) ↦
            with_message ""
              (rw (named, create, text_outcome, outcome) (rw (fits, refused) (refl, inr refl)))
        | inl (ttl, chosen) ↦ elim (Bool-cases (is_text input.body)) [
          | inr bad ↦
              let (m, e) = claim_refused ttl named bad in
              with_message m (
                rw (named, create, text_outcome, outcome)
                  (rw (fits, chosen, bad)
                    (
                      ap (λ (x : Result Error CreateResult × S). x.0) e,
                      inr (ap (λ (x : Result Error CreateResult × S). x.1) e),
                    )))
          | inl text ↦ elim (Option-cases (view db_now input.slug s)) [
            | inl free ↦ with_message "" (
                rw (named, create, text_outcome, outcome)
                  (rw (fits, chosen, text, free)
                    (
                      claim_free ttl valid (both_texts named text) free
                          ∙ sym (outcome-live keep now input ttl none named fits chosen),
                      inl (_, claim_free ttl valid (both_texts named text) free),
                    )))
            | inr (c, live) ↦ with_message "" (
                rw (named, create, text_outcome, outcome)
                  (rw (fits, chosen, text, live)
                    (
                      ap (λ (x : Result Error CreateResult × S). x.0)
                            (claim_taken ttl c valid (both_texts named text) live)
                          ∙ sym (outcome-live keep now input ttl (some c) named fits chosen),
                      inr (
                          ap (λ (x : Result Error CreateResult × S). x.1)
                            (claim_taken ttl c valid (both_texts named text) live)),
                    )))
          ]
        ]
      ]
    ]
  ]
