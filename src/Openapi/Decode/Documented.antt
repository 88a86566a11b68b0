-- ===== src/Openapi/Decode/Documented.antt =====
-- docs/api/openapi.yaml against internal/httpapi/clips.go: what becomes of a request that the document describes.
use go_clipboard.Base.{
  ◌≡◌, refl, sym, ◌⊎◌, inl, inr, Bool, true, false, Bytes, ◌==◌, ==_iff, and-true, [], ◌∷◌, ℤ, pos,
  Option, none, some, ok, arith,
}
use go_clipboard.Clock.{Duration}
use go_clipboard.Clips.{preset_10m, preset_1h, preset_2h, resolve_ttl}
use go_clipboard.Clips.Ttl.{ttl_from_seconds_iff, resolve_ttl_iff}
use go_clipboard.Json.{
  Json, null, boolean, integer, fraction, text, array, object, Members, no_members, member, find,
}
use go_clipboard.Json.Schema.{
  conforms, is_closed, is_declared_name, is_met, is_in_ℤ, Properties, property, no_properties,
  any_text, one_integer_of,
}
use go_clipboard.Http.Clips.{CreateClipRequest, requested_ttl}
use go_clipboard.Openapi.Document.{create_request_schema}
use go_clipboard.Openapi.Decode.{body_name, slug_name, ttl_name}
use go_clipboard.Openapi.Decode.Conforming.{is_lifetime, passes, is_known, all_known}
use go_clipboard.Openapi.Decode.Lookup.{integer_or}

==_swap : (s t : Bytes) → (s == t) ≡ true → (t == s) ≡ true
==_swap s t h = (==_iff t s).1 (sym ((==_iff s t).0 h))

abbrev request_properties : Properties
request_properties = property slug_name true any_text (
    property body_name true any_text
      (property ttl_name false (one_integer_of (pos 600 ∷ pos 3600 ∷ pos 7200 ∷ [])) no_properties))

declared-known :
    (key : Bytes) → is_declared_name key request_properties ≡ true → is_known key ≡ true
unfolding is_declared_name
declared-known key h =
    ground (arith, h, ==_swap slug_name key, ==_swap body_name key, ==_swap ttl_name key)

closed-known :
    (members : Members) → is_closed members request_properties ≡ true → all_known members ≡ true
unfolding is_closed all_known
closed-known no_members h = refl
closed-known (member key v members) h =
    let (here, rest) = and-true (is_declared_name key request_properties) _ h in
    rw (declared-known key here) (closed-known members rest)

module _ (is_date_time : Bytes → Bool) where
  required_text :
      (o : Option Json)
      → is_met true (conforms is_date_time any_text) o ≡ true
      → (s : Bytes) × (o ≡ some (text s))
  unfolding conforms
  required_text none h = absurd (ground (arith, h))
  required_text (some (text s)) h = (s, refl)
  required_text (some null) h = absurd (ground (arith, h))
  required_text (some (boolean b)) h = absurd (ground (arith, h))
  required_text (some (integer z)) h = absurd (ground (arith, h))
  required_text (some fraction) h = absurd (ground (arith, h))
  required_text (some (array vs)) h = absurd (ground (arith, h))
  required_text (some (object ms)) h = absurd (ground (arith, h))

  allowed_lifetime :
      (o : Option Json)
      → is_met false (conforms is_date_time (one_integer_of (pos 600 ∷ pos 3600 ∷ pos 7200 ∷ []))) o
        ≡ true
      → passes is_lifetime o ≡ true
  unfolding conforms
  allowed_lifetime none h = refl
  allowed_lifetime (some v) h = ground (arith, h)

  pub conforming :
      (members : Members)
      → conforms is_date_time create_request_schema (object members) ≡ true
      → ((slug : Bytes) × (find slug_name members ≡ some (text slug)))
        × ((body : Bytes) × (find body_name members ≡ some (text body)))
        × (passes is_lifetime (find ttl_name members) ≡ true)
        × (all_known members ≡ true)
  unfolding conforms
  conforming members h =
      let (fields, closed) = and-true _ _ h in
      let (slug, others) = and-true _ _ fields in
      let (body, last) = and-true _ _ others in
      let (ttl, done) = and-true _ _ last in
      (
        required_text (find slug_name members) slug,
        required_text (find body_name members) body,
        allowed_lifetime (find ttl_name members) ttl,
        closed-known members closed,
      )

-- The lifetime of a request, once it is resolved.
abbrev pub IsResolved : CreateClipRequest → Duration → Type 0
IsResolved req d =
    (ttl : Duration) × (requested_ttl req.ttl_seconds ≡ ok ttl) × (resolve_ttl ttl ≡ ok d)

preset-IsResolved :
    (seconds : ℤ) (slug body : Bytes) (d : Duration)
    → ((seconds ≡ pos 600) × (d ≡ preset_10m))
      ⊎ ((seconds ≡ pos 3600) × (d ≡ preset_1h))
      ⊎ ((seconds ≡ pos 7200) × (d ≡ preset_2h))
    → IsResolved (record { slug = slug; body = body; ttl_seconds = some seconds }) d
unfolding requested_ttl
preset-IsResolved seconds slug body d h = (
  d,
  (ttl_from_seconds_iff seconds d).1 h,
  (resolve_ttl_iff d d).1 (elim h [
    | inl (z, e) ↦ inr (inl e, refl)
    | inr (inl (z, e)) ↦ inr (inr (inl e), refl)
    | inr (inr (z, e)) ↦ inr (inr (inr e), refl)
  ]),
)

pub lifetime_lem :
    (o : Option Json) (slug body : Bytes)
    → passes is_lifetime o ≡ true
    → (d : Duration) × IsResolved
        (record { slug = slug; body = body; ttl_seconds = integer_or none o })
        d
unfolding requested_ttl
lifetime_lem none slug body h =
    (preset_2h, (pos 0, refl, (resolve_ttl_iff (pos 0) preset_2h).1 (inl (refl, refl))))
lifetime_lem (some (integer z)) slug body h = elim (one_of_three z h) [
  | inl e ↦ (preset_10m, preset-IsResolved z slug body preset_10m (inl (e, refl)))
  | inr (inl e) ↦ (preset_1h, preset-IsResolved z slug body preset_1h (inr (inl (e, refl))))
  | inr (inr e) ↦ (preset_2h, preset-IsResolved z slug body preset_2h (inr (inr (e, refl))))
]
  where
    one_of_three :
        (z : ℤ)
        → is_in_ℤ z (pos 600 ∷ pos 3600 ∷ pos 7200 ∷ []) ≡ true
        → (z ≡ pos 600) ⊎ (z ≡ pos 3600) ⊎ (z ≡ pos 7200)
    one_of_three z h = ground (arith, h)
lifetime_lem (some null) slug body h = absurd (ground (arith, h))
lifetime_lem (some (boolean b)) slug body h = absurd (ground (arith, h))
lifetime_lem (some (text s)) slug body h = absurd (ground (arith, h))
lifetime_lem (some fraction) slug body h = absurd (ground (arith, h))
lifetime_lem (some (array vs)) slug body h = absurd (ground (arith, h))
lifetime_lem (some (object ms)) slug body h = absurd (ground (arith, h))
