-- ===== src/Clips/Store.antt =====
-- internal/clips/service.go: the interface `store`, and what its clients rely on.
use go_clipboard.Base.{
  ℕ, ◌+◌, ◌≤◌, ◌<◌, ◌≡◌, refl, Bool, true, false, ◌&&◌, Option, none, some, Bytes, ◌==◌, Result, ok,
  err, ltb, if◌then◌else◌, String,
}
use go_clipboard.Clock.{Time}
use go_clipboard.Clips.{Error, slug_in_use, not_found, failure, Clip}

-- The methods of `store`, over states `S`. The first argument of each is what the store's own clock
-- shows: `s.now()` of the store in memory, `now()` of the database.
pub record Store (S : Type 0) : Type 0 where
  pub claim_clip : Time → Bytes → Bytes → Time → Time → S → Result Error Clip × S
  pub get_live_clip : Time → Bytes → S → Result Error Clip
  pub delete_expired_clips : Time → S → Result Error ℕ × S
  pub slug_is_live : Time → Bytes → S → Result Error Bool

abbrev pub found_or_missing : Option Clip → Result Error Clip
found_or_missing none = err not_found
found_or_missing (some c) = ok c

abbrev pub is_some : Option Clip → Bool
is_some none = false
is_some (some c) = true

-- The contract of a store that does not fail. `view now slug s` is the clip that is live under the
-- slug; `keep` is the precision to which the store holds an instant.
pub record IsStore {S : Type 0} (st : Store S) (IsValid : S → Type 0)
    (view : Time → Bytes → S → Option Clip) (keep : Time → Time) : Type 0 where
  pub keep_le : (t : Time) → keep t ≤ t
  pub keep_near : (t : Time) → t < keep t + 1000
  pub get_lem :
      (now : Time) (slug : Bytes) (s : S)
      → IsValid s
      → st.get_live_clip now slug s ≡ found_or_missing (view now slug s)
  pub live_lem :
      (now : Time) (slug : Bytes) (s : S)
      → IsValid s
      → st.slug_is_live now slug s ≡ ok (is_some (view now slug s))
  pub claim_taken :
      (now : Time) (slug body : Bytes) (created expires : Time) (c : Clip) (s : S)
      → IsValid s
      → view now slug s ≡ some c
      → st.claim_clip now slug body created expires s ≡ (err slug_in_use, s)
  pub claim_free :
      (now : Time) (slug body : Bytes) (created expires : Time) (s : S)
      → IsValid s
      → view now slug s ≡ none
      → (st.claim_clip now slug body created expires s).0
        ≡ ok (record {
          slug = slug;
          body = body;
          created_at = keep created;
          expires_at = keep expires;
        })
  pub claim-IsValid :
      (now : Time) (slug body : Bytes) (created expires : Time) (s : S)
      → IsValid s
      → IsValid (st.claim_clip now slug body created expires s).1
  pub view-claim :
      (now later : Time) (slug body : Bytes) (created expires : Time) (j : Bytes) (s : S)
      → IsValid s
      → view now slug s ≡ none
      → view later j (st.claim_clip now slug body created expires s).1 ≡ (
          if slug == j
          then (if ltb later (keep expires)
              then some (record {
                slug = slug;
                body = body;
                created_at = keep created;
                expires_at = keep expires;
              })
              else none)
          else view later j s)
  pub sweep_ok :
      (now : Time) (s : S) → IsValid s → (n : ℕ) × ((st.delete_expired_clips now s).0 ≡ ok n)
  pub sweep-IsValid : (now : Time) (s : S) → IsValid s → IsValid (st.delete_expired_clips now s).1
  pub view-sweep :
      (now later : Time) (slug : Bytes) (s : S)
      → IsValid s
      → now ≤ later
      → view later slug (st.delete_expired_clips now s).1 ≡ view later slug s

-- The contract of a store that takes some byte strings as texts and fails for the others: an operation
-- on texts does what IsStore says, and one on anything else reports an error that is neither "in use"
-- nor "not found", and changes nothing.
pub record IsTextStore {S : Type 0} (is_text : Bytes → Bool) (st : Store S) (IsValid : S → Type 0)
    (view : Time → Bytes → S → Option Clip) (keep : Time → Time) : Type 0 where
  pub keep_le : (t : Time) → keep t ≤ t
  pub keep_near : (t : Time) → t < keep t + 1000
  pub get_text :
      (now : Time) (slug : Bytes) (s : S)
      → IsValid s
      → is_text slug ≡ true
      → st.get_live_clip now slug s ≡ found_or_missing (view now slug s)
  pub get_refused :
      (now : Time) (slug : Bytes) (s : S)
      → is_text slug ≡ false
      → (m : String) × (st.get_live_clip now slug s ≡ err (failure m))
  pub live_text :
      (now : Time) (slug : Bytes) (s : S)
      → IsValid s
      → is_text slug ≡ true
      → st.slug_is_live now slug s ≡ ok (is_some (view now slug s))
  pub live_refused :
      (now : Time) (slug : Bytes) (s : S)
      → is_text slug ≡ false
      → (m : String) × (st.slug_is_live now slug s ≡ err (failure m))
  pub claim_taken :
      (now : Time) (slug body : Bytes) (created expires : Time) (c : Clip) (s : S)
      → IsValid s
      → (is_text slug && is_text body) ≡ true
      → view now slug s ≡ some c
      → st.claim_clip now slug body created expires s ≡ (err slug_in_use, s)
  pub claim_free :
      (now : Time) (slug body : Bytes) (created expires : Time) (s : S)
      → IsValid s
      → (is_text slug && is_text body) ≡ true
      → view now slug s ≡ none
      → (st.claim_clip now slug body created expires s).0
        ≡ ok (record {
          slug = slug;
          body = body;
          created_at = keep created;
          expires_at = keep expires;
        })
  pub claim_refused :
      (now : Time) (slug body : Bytes) (created expires : Time) (s : S)
      → (is_text slug && is_text body) ≡ false
      → (m : String) × (st.claim_clip now slug body created expires s ≡ (err (failure m), s))
  pub claim-IsValid :
      (now : Time) (slug body : Bytes) (created expires : Time) (s : S)
      → IsValid s
      → IsValid (st.claim_clip now slug body created expires s).1
  pub view-claim :
      (now later : Time) (slug body : Bytes) (created expires : Time) (j : Bytes) (s : S)
      → IsValid s
      → (is_text slug && is_text body) ≡ true
      → view now slug s ≡ none
      → view later j (st.claim_clip now slug body created expires s).1 ≡ (
          if slug == j
          then (if ltb later (keep expires)
              then some (record {
                slug = slug;
                body = body;
                created_at = keep created;
                expires_at = keep expires;
              })
              else none)
          else view later j s)
  pub sweep_ok :
      (now : Time) (s : S) → IsValid s → (n : ℕ) × ((st.delete_expired_clips now s).0 ≡ ok n)
  pub sweep-IsValid : (now : Time) (s : S) → IsValid s → IsValid (st.delete_expired_clips now s).1
  pub view-sweep :
      (now later : Time) (slug : Bytes) (s : S)
      → IsValid s
      → now ≤ later
      → view later slug (st.delete_expired_clips now s).1 ≡ view later slug s

-- With every byte string a text, the store never fails.
pub IsTextStore-IsStore :
    {S : Type 0} (is_text : Bytes → Bool) (st : Store S) (IsValid : S → Type 0)
    (view : Time → Bytes → S → Option Clip) (keep : Time → Time)
    → ((b : Bytes) → is_text b ≡ true)
    → IsTextStore is_text st IsValid view keep
    → IsStore st IsValid view keep
IsTextStore-IsStore is_text st IsValid view keep all law =
    let both : (slug body : Bytes) → (is_text slug && is_text body) ≡ true =
      λ slug body. rw (all slug, all body) refl in
    record {
      keep_le = law.keep_le;
      keep_near = law.keep_near;
      get_lem = λ now slug s v. law.get_text now slug s v (all slug);
      live_lem = λ now slug s v. law.live_text now slug s v (all slug);
      claim_taken = λ now slug body created expires c s v h.
          law.claim_taken now slug body created expires c s v (both slug body) h;
      claim_free = λ now slug body created expires s v h.
          law.claim_free now slug body created expires s v (both slug body) h;
      claim-IsValid = law.claim-IsValid;
      view-claim = λ now later slug body created expires j s v h.
          law.view-claim now later slug body created expires j s v (both slug body) h;
      sweep_ok = law.sweep_ok;
      sweep-IsValid = law.sweep-IsValid;
      view-sweep = law.view-sweep;
    }
