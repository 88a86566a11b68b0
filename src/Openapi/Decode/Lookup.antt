-- ===== src/Openapi/Decode/Lookup.antt =====
-- internal/httpapi/clips.go: the fields of a request whose members are the documented ones.
use go_clipboard.Base.{
  ◌≡◌, refl, ap, subst, sym, ◌∙◌, inl, inr, Bool, true, Bytes, ◌==◌, ==_iff, [], ℤ, Option, none,
  some, Bool-cases, arith,
}
use go_clipboard.Json.{Json, Members, no_members, member, find}
use go_clipboard.Openapi.Decode.{
  Field, body_field, slug_field, ttl_field, body_name, slug_name, ttl_name, blank_request, field_of,
}
use go_clipboard.Openapi.Decode.Typed.{
  takes, is_typed, last_text, last_integer, last_of, is_body, is_slug, is_ttl, is_taken, text_after,
  integer_after,
}
use go_clipboard.Openapi.Decode.Conforming.{
  is_unique, is_text, is_lifetime, is_documented, all_documented, is_known, all_known, unique_cases,
}

abbrev pub text_or : Bytes → Option Json → Bytes
text_or before none = before
text_or before (some v) = text_after v before

abbrev pub integer_or : Option ℤ → Option Json → Option ℤ
integer_or before none = before
integer_or before (some v) = integer_after v before

module _ (fold : Bytes → Bytes) where
  -- The name of a field, and no other, stands for it.
  abbrev IsNamed : Bytes → Type 0
  IsNamed key =
      (is_body (field_of fold key) ≡ (key == body_name))
      × (is_slug (field_of fold key) ≡ (key == slug_name))
      × (is_ttl (field_of fold key) ≡ (key == ttl_name))

  IsNamed-body : IsNamed body_name
  unfolding field_of ◌==◌
  IsNamed-body = (refl, refl, refl)

  IsNamed-slug : IsNamed slug_name
  unfolding field_of ◌==◌
  IsNamed-slug = (refl, refl, refl)

  IsNamed-ttl : IsNamed ttl_name
  unfolding field_of ◌==◌
  IsNamed-ttl = (refl, refl, refl)

  pub known_field : (key : Bytes) → is_known key ≡ true → IsNamed key
  known_field key known = elim (Bool-cases (key == body_name)) [
    | inl b ↦ subst IsNamed (sym ((==_iff key body_name).0 b)) IsNamed-body
    | inr nb ↦ elim (Bool-cases (key == slug_name)) [
      | inl s ↦ subst IsNamed (sym ((==_iff key slug_name).0 s)) IsNamed-slug
      | inr ns ↦ elim (Bool-cases (key == ttl_name)) [
        | inl t ↦ subst IsNamed (sym ((==_iff key ttl_name).0 t)) IsNamed-ttl
        | inr nt ↦ absurd (ground (arith, known, nb, ns, nt))
      ]
    ]
  ]

  last_text-absent :
      (test : Option Field → Bool) (name : Bytes) (members : Members) (before : Bytes)
      → ((key : Bytes) → is_known key ≡ true → test (field_of fold key) ≡ (key == name))
      → all_known members ≡ true
      → find name members ≡ none
      → last_text fold test members before ≡ before
  unfolding last_text find all_known
  last_text-absent test name no_members before names known absent = refl
  last_text-absent test name (member key v members) before names known absent =
      elim (Bool-cases (key == name)) [
        | inl same ↦ absurd (ground (arith, absent, same))
        | inr other ↦
            rw (names key (ground (arith, known)), other)
              (last_text-absent test name members before names (ground (arith, known))
                (ground (arith, absent, other)))
      ]

  last_text-find :
      (test : Option Field → Bool) (name : Bytes) (members : Members) (before : Bytes)
      → ((key : Bytes) → is_known key ≡ true → test (field_of fold key) ≡ (key == name))
      → all_known members ≡ true
      → is_unique members ≡ true
      → last_text fold test members before ≡ text_or before (find name members)
  unfolding last_text find all_known
  last_text-find test name no_members before names known unique = refl
  last_text-find test name (member key v members) before names known unique =
      let (alone, rest) = unique_cases key v members unique in
      elim (Bool-cases (key == name)) [
        | inl same ↦
            rw (names key (ground (arith, known)), same)
              (last_text-absent test name members (text_after v before) names
                (ground (arith, known))
                (ap (λ x. find x members) (sym ((==_iff key name).0 same)) ∙ alone))
        | inr other ↦
            rw (names key (ground (arith, known)), other)
              (last_text-find test name members before names (ground (arith, known)) rest)
      ]

  last_integer-absent :
      (members : Members) (before : Option ℤ)
      → all_known members ≡ true
      → find ttl_name members ≡ none
      → last_integer fold members before ≡ before
  unfolding last_integer find all_known
  last_integer-absent no_members before known absent = refl
  last_integer-absent (member key v members) before known absent =
      elim (Bool-cases (key == ttl_name)) [
        | inl same ↦ absurd (ground (arith, absent, same))
        | inr other ↦
            rw ((known_field key (ground (arith, known))).2, other)
              (last_integer-absent members before (ground (arith, known))
                (ground (arith, absent, other)))
      ]

  last_integer-find :
      (members : Members) (before : Option ℤ)
      → all_known members ≡ true
      → is_unique members ≡ true
      → last_integer fold members before ≡ integer_or before (find ttl_name members)
  unfolding last_integer find all_known
  last_integer-find no_members before known unique = refl
  last_integer-find (member key v members) before known unique =
      let (alone, rest) = unique_cases key v members unique in
      elim (Bool-cases (key == ttl_name)) [
        | inl same ↦
            rw ((known_field key (ground (arith, known))).2, same)
              (last_integer-absent members (integer_after v before) (ground (arith, known))
                (ap (λ x. find x members) (sym ((==_iff key ttl_name).0 same)) ∙ alone))
        | inr other ↦
            rw ((known_field key (ground (arith, known))).2, other)
              (last_integer-find members before (ground (arith, known)) rest)
      ]

  -- The request that members with the documented names, each at most once, are decoded to.
  pub last_of-find :
      (members : Members)
      → all_known members ≡ true
      → is_unique members ≡ true
      → last_of fold members blank_request ≡ record {
        slug = text_or [] (find slug_name members);
        body = text_or [] (find body_name members);
        ttl_seconds = integer_or none (find ttl_name members);
      }
  last_of-find members known unique =
      rw
        (
          last_text-find is_slug slug_name members [] (λ key h. (known_field key h).1) known unique,
          last_text-find is_body body_name members [] (λ key h. (known_field key h).0) known unique,
          last_integer-find members none known unique,
        )
        refl

  typed_member :
      (key : Bytes) (v : Json) → is_documented key v ≡ true → is_taken (field_of fold key) v ≡ true
  unfolding field_of
  typed_member key v documented = elim (Bool-cases (key == body_name)) [
    | inl b ↦ rw (b, field_of) (body-takes v (ground (arith, documented, b)))
    | inr nb ↦ elim (Bool-cases (key == slug_name)) [
      | inl s ↦ rw (nb, s, field_of) (slug-takes v (ground (arith, documented, nb, s)))
      | inr ns ↦ elim (Bool-cases (key == ttl_name)) [
        | inl t ↦ rw (nb, ns, t, field_of) (ttl-takes v (ground (arith, documented, nb, ns, t)))
        | inr nt ↦ absurd (ground (arith, documented, nb, ns, nt))
      ]
    ]
  ]
    where
      body-takes : (v : Json) → is_text v ≡ true → takes body_field v ≡ true
      body-takes v h = ground (arith, h)

      slug-takes : (v : Json) → is_text v ≡ true → takes slug_field v ≡ true
      slug-takes v h = ground (arith, h)

      ttl-takes : (v : Json) → is_lifetime v ≡ true → takes ttl_field v ≡ true
      ttl-takes v h = ground (arith, h)

  pub all_documented-typed :
      (members : Members) → all_documented members ≡ true → is_typed fold members ≡ true
  unfolding all_documented is_typed
  all_documented-typed no_members h = refl
  all_documented-typed (member key v members) h =
      rw (typed_member key v (ground (arith, h))) (all_documented-typed members (ground (arith, h)))
