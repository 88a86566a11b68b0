-- ===== src/Http/Static/Clean.antt =====
-- internal/httpapi/static.go: the names that reach the file system.
use go_clipboard.Base.{
  ℕ, ◌≡◌, refl, sym, ◌⊎◌, inl, inr, false, ◌||◌, Bytes, ascii, ◌==◌, ==_iff, List, [], ◌∷◌, arith,
  Bool-cases, eqb, All, List-cases, All-append, subst,
}
use go_clipboard.Http.ClientIp.{split, prepend}
use go_clipboard.Http.ClientIp.Split.{contains, split-append, split_one, split-cases}
use go_clipboard.Http.Static.{
  FileSystem, file_exists, slash, clean_segment, clean_segments, join_back, clean_path, index,
  served_name,
}

-- A segment that io/fs allows in a name: not empty, neither of the two dotted ones, and with no
-- slash in it.
pub record IsSegment (part : Bytes) : Type 0 where
  pub nonempty : (part == []) ≡ false
  pub not_dot : (part == ascii ".") ≡ false
  pub not_up : (part == ascii "..") ≡ false
  pub whole : contains slash part ≡ false

split-whole : (c : ℕ) (s : Bytes) → All (λ part. contains c part ≡ false) (split c s)
unfolding split contains prepend
split-whole c [] = (refl, tt)
split-whole c (b ∷ s) = elim (Bool-cases (eqb b c)) [
  | inl cut ↦ rw (cut, split) (refl, split-whole c s)
  | inr same ↦
      let (p, ps, parts) = split-cases c s in
      let (first, others) = subst (All (λ part. contains c part ≡ false)) parts (split-whole c s) in
      rw (same, split, parts) (rw (same, contains) first, others)
]

clean_segment-IsSegment :
    (part : Bytes) (kept : List Bytes)
    → contains slash part ≡ false
    → All IsSegment kept
    → All IsSegment (clean_segment part kept)
unfolding clean_segment
clean_segment-IsSegment part kept whole h = elim (Bool-cases (part == [] || part == ascii ".")) [
  | inl skipped ↦ rw (skipped, clean_segment) h
  | inr not_skipped ↦ elim (Bool-cases (part == ascii "..")) [
    | inl up ↦ elim (List-cases kept) [
      | inl empty ↦ rw (not_skipped, clean_segment, up, empty) tt
      | inr (last, others, more) ↦
          rw (not_skipped, clean_segment, up, more) ((subst (All IsSegment) more h).1)
    ]
    | inr not_up ↦
        rw (not_skipped, clean_segment, not_up)
          (
            record {
              nonempty = ground (arith, not_skipped);
              not_dot = ground (arith, not_skipped);
              not_up = not_up;
              whole = whole;
            },
            h,
          )
  ]
]

clean_segments-IsSegment :
    (parts kept : List Bytes)
    → All (λ part. contains slash part ≡ false) parts
    → All IsSegment kept
    → All IsSegment (clean_segments parts kept)
unfolding clean_segments
clean_segments-IsSegment [] kept whole h = h
clean_segments-IsSegment (part ∷ parts) kept (first, whole) h =
    clean_segments-IsSegment parts (clean_segment part kept) whole
      (clean_segment-IsSegment part kept first h)

-- io/fs.ValidPath, but for the name of the root.
abbrev pub IsValidPath : Bytes → Type 0
IsValidPath name = All IsSegment (split slash name)

segment-IsValidPath : (part : Bytes) → IsSegment part → IsValidPath part
segment-IsValidPath part h = subst (All IsSegment) (sym (split_one slash part h.whole)) (h, tt)

join_back-IsValidPath :
    (part : Bytes) (before : List Bytes)
    → All IsSegment (part ∷ before)
    → IsValidPath (join_back (part ∷ before))
unfolding join_back
join_back-IsValidPath part [] (h, others) = segment-IsValidPath part h
join_back-IsValidPath part (last ∷ before) (h, others) =
    subst (All IsSegment) (sym (split-append slash (join_back (last ∷ before)) part)) (
      All-append IsSegment (split slash (join_back (last ∷ before))) (split slash part)
        (join_back-IsValidPath last before others) (segment-IsValidPath part h))

index-IsValidPath : IsValidPath index
unfolding split ◌==◌ contains
index-IsValidPath = (record { nonempty = refl; not_dot = refl; not_up = refl; whole = refl }, tt)

clean_path-cases : (p : Bytes) → (clean_path p ≡ []) ⊎ IsValidPath (clean_path p)
unfolding clean_path join_back
clean_path-cases p =
    let kept = clean_segments-IsSegment (split slash p) [] (split-whole slash p) tt in
    elim (List-cases (clean_segments (split slash p) [])) [
      | inl root ↦ inl (rw root refl)
      | inr (part, before, more) ↦ inr (
          subst (λ l. IsValidPath (join_back l)) (sym more)
            (join_back-IsValidPath part before (subst (All IsSegment) more kept)))
    ]

-- Whatever path a client asks for, the name that is opened is valid in a file system: none of its
-- segments is empty, dotted or holds a slash, so it does not leave the frontend's directory.
pub served_name-IsValidPath : (fsys : FileSystem) (p : Bytes) → IsValidPath (served_name fsys p)
unfolding served_name
served_name-IsValidPath fsys p = elim (Bool-cases (clean_path p == [])) [
  | inl root ↦ rw (root, served_name) index-IsValidPath
  | inr below ↦ elim (Bool-cases (file_exists fsys (clean_path p))) [
    | inr missing ↦ rw (below, served_name, missing) index-IsValidPath
    | inl found ↦
        rw (below, served_name, found)
          (elim (clean_path-cases p) [
            | inr valid ↦ valid
            | inl root ↦ absurd (ground (arith, below, (==_iff (clean_path p) []).1 root))
          ])
  ]
]
