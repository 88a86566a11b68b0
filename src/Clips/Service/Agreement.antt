-- ===== src/Clips/Service/Agreement.antt =====
-- internal/clips/service.go: a service answers alike over any store that keeps the contract.
use go_clipboard.Base.{
  ◌≤◌, ◌≡◌, refl, ap, sym, ◌∙◌, inl, inr, Bool, Option, Bytes, Result, arith, Result-cases, List,
  [], ◌∷◌,
}
use go_clipboard.Clock.{Time}
use go_clipboard.Slug.{validate}
use go_clipboard.Clips.{Error, Clip}
use go_clipboard.Clips.Store.{Store, IsStore, found_or_missing}
use go_clipboard.Clips.Service.{
  CreateInput, CreateResult, create, read, availability, delete_expired,
}
use go_clipboard.Clips.Service.Create.{outcome, create-outcome, create-err_unchanged}
use go_clipboard.Clips.Service.Reading
use go_clipboard.Clips.Service.Reading.{read-view, availability-hint, create-IsValid, view-create}

-- A call of the service. `db_now` is what the clock of the store shows during the call.
pub data Call : Type 0 where
  create_clip : Time → CreateInput → Call
  read_clip : Bytes → Call
  check : Bytes → Call
  sweep : Call

pub data Reply : Type 0 where
  created : Result Error CreateResult → Reply
  clip : Result Error Clip → Reply
  hint : Result Error Bool → Reply
  swept : Reply

module _ {S : Type 0} (st : Store S) where
  unfoldable pub answer : Time → Call → S → Reply × S
  answer db_now (create_clip now input) s =
      let (r, s') = create st now db_now input s in (created r, s')
  answer db_now (read_clip slug) s = (clip (read st db_now slug s), s)
  answer db_now (check slug) s = (hint (availability st db_now slug s), s)
  answer db_now sweep s = (swept, (delete_expired st db_now s).1)

  unfoldable pub answers : List (Time × Call) → S → List Reply
  answers [] s = []
  answers ((db_now, c) ∷ calls) s = let (r, s') = answer db_now c s in r ∷ answers calls s'

-- The clock of the store does not go back.
abbrev pub Ascending : Time → List (Time × Call) → Type 0
Ascending from [] = Unit
Ascending from ((now, c) ∷ calls) = (from ≤ now) × Ascending now calls

module _ {S T : Type 0} (st : Store S) (IsValid : S → Type 0)
    (view : Time → Bytes → S → Option Clip) (su : Store T) (IsValid' : T → Type 0)
    (view' : Time → Bytes → T → Option Clip) (keep : Time → Time)
    (law : IsStore st IsValid view keep) (law' : IsStore su IsValid' view' keep) where
  -- From `from` on the two states show the same clips.
  pub record Same (from : Time) (s : S) (t : T) : Type 0 where
    pub valid : IsValid s
    pub valid' : IsValid' t
    pub same : (later : Time) (slug : Bytes) → from ≤ later → view later slug s ≡ view' later slug t

  pub create-Same :
      (from now db_now : Time) (input : CreateInput) (s : S) (t : T)
      → Same from s t
      → from ≤ db_now
      → (create st now db_now input s).0 ≡ (create su now db_now input t).0
  create-Same from now db_now input s t h le =
      create-outcome st IsValid view keep law now db_now input s h.valid
      ∙ ap (outcome keep now input) (h.same db_now input.slug le)
      ∙ sym (create-outcome su IsValid' view' keep law' now db_now input t h.valid')

  pub Same-create :
      (from now db_now : Time) (input : CreateInput) (s : S) (t : T)
      → Same from s t
      → from ≤ db_now
      → Same db_now (create st now db_now input s).1 (create su now db_now input t).1
  Same-create from now db_now input s t h le = record {
    valid = create-IsValid st IsValid view keep law now db_now input s h.valid;
    valid' = create-IsValid su IsValid' view' keep law' now db_now input t h.valid';
    same = λ later slug after. elim (Result-cases (create st now db_now input s).0) [
      | inl (r, done) ↦
          let done' = sym (create-Same from now db_now input s t h le) ∙ done in
          rw
            (
              view-create st IsValid view keep law now db_now input s h.valid r later slug done,
              view-create su IsValid' view' keep law' now db_now input t h.valid' r later slug
                  done',
              h.same later slug (omega arith),
            )
            refl
      | inr (e, failed) ↦
          let failed' = sym (create-Same from now db_now input s t h le) ∙ failed in
          rw
            (
              create-err_unchanged st IsValid view keep law now db_now input s h.valid e failed,
              create-err_unchanged su IsValid' view' keep law' now db_now input t h.valid' e
                  failed',
            )
            (h.same later slug (omega arith))
    ];
  }

  pub Same-sweep :
      (from db_now : Time) (s : S) (t : T)
      → Same from s t
      → from ≤ db_now
      → Same db_now (delete_expired st db_now s).1 (delete_expired su db_now t).1
  unfolding delete_expired
  Same-sweep from db_now s t h le = record {
    valid = law.sweep-IsValid db_now s h.valid;
    valid' = law'.sweep-IsValid db_now t h.valid';
    same = λ later slug after.
        law.view-sweep db_now later slug s h.valid after
        ∙ h.same later slug (omega arith)
        ∙ sym (law'.view-sweep db_now later slug t h.valid' after);
  }

  pub Same-later : (from now : Time) (s : S) (t : T) → Same from s t → from ≤ now → Same now s t
  Same-later from now s t h le = record {
    valid = h.valid;
    valid' = h.valid';
    same = λ later slug after. h.same later slug (omega arith);
  }

  answer-Same :
      (from db_now : Time) (c : Call) (s : S) (t : T)
      → Same from s t
      → from ≤ db_now
      → ((answer st db_now c s).0 ≡ (answer su db_now c t).0)
        × Same db_now (answer st db_now c s).1 (answer su db_now c t).1
  unfolding answer
  answer-Same from db_now (create_clip now input) s t h le = (
    ap created (create-Same from now db_now input s t h le),
    Same-create from now db_now input s t h le,
  )
  answer-Same from db_now (read_clip slug) s t h le = (
    ap clip (
        read-view st IsValid view keep law db_now slug s h.valid
        ∙ ap found_or_missing (h.same db_now slug le)
        ∙ sym (read-view su IsValid' view' keep law' db_now slug t h.valid')),
    Same-later from db_now s t h le,
  )
  answer-Same from db_now (check slug) s t h le = (
    ap hint (
        availability-hint st IsValid view keep law db_now slug s h.valid
        ∙ ap (Reading.hint (validate slug)) (h.same db_now slug le)
        ∙ sym (availability-hint su IsValid' view' keep law' db_now slug t h.valid')),
    Same-later from db_now s t h le,
  )
  answer-Same from db_now sweep s t h le = (refl, Same-sweep from db_now s t h le)

  answers-Same :
      (from : Time) (calls : List (Time × Call)) (s : S) (t : T)
      → Same from s t
      → Ascending from calls
      → answers st calls s ≡ answers su calls t
  unfolding answers
  answers-Same from [] s t h up = refl
  answers-Same from ((now, c) ∷ calls) s t h up =
      let (reply, next) = answer-Same from now c s t h up.0 in
      rw (reply, answers-Same now calls _ _ next up.1) refl

  -- Two stores that keep the contract to the same precision cannot be told apart: from states that
  -- show the same live clips from an instant on, any sequence of claims, reads, hints and sweeps by
  -- an ascending store clock gets the same answers, whatever the clock of the service shows.
  pub answers_agree :
      (from : Time) (calls : List (Time × Call)) (s : S) (t : T)
      → IsValid s
      → IsValid' t
      → ((later : Time) (slug : Bytes) → from ≤ later → view later slug s ≡ view' later slug t)
      → Ascending from calls
      → answers st calls s ≡ answers su calls t
  answers_agree from calls s t valid valid' same up =
      answers-Same from calls s t (record { valid = valid; valid' = valid'; same = same }) up
