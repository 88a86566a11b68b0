-- ===== src/Http/Host.antt =====
-- internal/httpapi/host.go: the check of the Host header.
-- `next` is the wrapped handler, over states `S`; its results are of a type `R`, and `refuse` is the one
-- that writes a response.
use go_clipboard.Base.{
  ℕ, ◌≡◌, refl, Bool, true, false, not, ◌&&◌, ◌||◌, Bool-cases, inl, inr, Bytes, ◌==◌, ascii, [],
  ◌∷◌, ◌++◌, none, some, if◌then◌else◌, eqb, arith,
}
use go_clipboard.Http.{Request, Response, plain_error}
use go_clipboard.Http.ClientIp.{Net}

-- host[len(host)-1] == b, and host[:len(host)-1].
unfoldable pub ends_in : ℕ → Bytes → Bool
ends_in b [] = false
ends_in b (c ∷ []) = eqb c b
ends_in b (c ∷ d ∷ s) = ends_in b (d ∷ s)

unfoldable pub drop_last : Bytes → Bytes
drop_last [] = []
drop_last (c ∷ []) = []
drop_last (c ∷ d ∷ s) = c ∷ drop_last (d ∷ s)

-- A bracketed IPv6 address without a port: at least two bytes, the first `[` and the last `]`.
unfoldable pub without_brackets : Bytes → Bytes
unfolding ends_in drop_last
without_brackets [] = []
without_brackets (c ∷ []) = c ∷ []
without_brackets (c ∷ d ∷ s) =
    if eqb c 91 && ends_in 93 (d ∷ s) then drop_last (d ∷ s) else c ∷ d ∷ s

module _ (net : Net) where
  unfoldable pub host_matches : Bytes → Bytes → Bool
  unfolding without_brackets
  host_matches host_header hostname = elim (net.split_host_port host_header) [
    | some host ↦ net.equal_fold host hostname
    | none ↦ net.equal_fold (without_brackets host_header) hostname
  ]

  module _ {S R : Type 0} (refuse : Response → R) (hostname : Bytes)
      (next : Request → S → R × S) where
    unfoldable pub require_host : Request → S → R × S
    unfolding host_matches plain_error
    require_host r s =
        if hostname == []
        then next r s
        else if not (host_matches r.host hostname)
        then (refuse (plain_error (ascii "host not allowed") 421), s)
        else next r s

  -- How a client may write a host in the header: with a port, with neither port nor brackets, or
  -- as an address in brackets.
  pub data IsHeaderFor (host : Bytes) : Bytes → Type 0 where
    with_port : {header : Bytes} → net.split_host_port header ≡ some host → IsHeaderFor host header
    plain : net.split_host_port host ≡ none → without_brackets host ≡ host → IsHeaderFor host host
    bracketed :
        net.split_host_port (91 ∷ host ++ ascii "]") ≡ none
        → IsHeaderFor host (91 ∷ host ++ ascii "]")

ends_in-append : (b : ℕ) (s : Bytes) → ends_in b (s ++ (b ∷ [])) ≡ true
unfolding ends_in
ends_in-append b [] = ground arith
ends_in-append b (c ∷ []) = ground arith
ends_in-append b (c ∷ d ∷ s) = ends_in-append b (d ∷ s)

drop_last-append : (b : ℕ) (s : Bytes) → drop_last (s ++ (b ∷ [])) ≡ s
unfolding drop_last
drop_last-append b [] = refl
drop_last-append b (c ∷ []) = refl
drop_last-append b (c ∷ d ∷ s) = rw (drop_last-append b (d ∷ s)) refl

without_brackets_lem : (s : Bytes) → without_brackets (91 ∷ s ++ (93 ∷ [])) ≡ s
unfolding without_brackets
without_brackets_lem [] = refl
without_brackets_lem (c ∷ s) = rw (ends_in-append 93 (c ∷ s), drop_last-append 93 (c ∷ s)) refl

module _ (net : Net) where
  pub host_matches-IsHeaderFor :
      (host header hostname : Bytes)
      → IsHeaderFor net host header
      → host_matches net header hostname ≡ net.equal_fold host hostname
  unfolding host_matches
  host_matches-IsHeaderFor host header hostname (with_port split) = rw (split, host_matches) refl
  host_matches-IsHeaderFor host header hostname (plain split bare) =
      rw (split, host_matches, bare) refl
  host_matches-IsHeaderFor host header hostname (bracketed split) =
      rw (split, host_matches, without_brackets_lem host) refl

  -- Any host is allowed where none is configured.
  abbrev pub is_allowed : Bytes → Bytes → Bool
  is_allowed hostname host_header = (hostname == []) || host_matches net host_header hostname

  pub require_host-is_allowed :
      {S R : Type 0} (refuse : Response → R) (hostname : Bytes) (next : Request → S → R × S)
      (r : Request) (s : S)
      → require_host net refuse hostname next r s ≡ (
          if is_allowed hostname r.host
          then next r s
          else (refuse (plain_error (ascii "host not allowed") 421), s))
  unfolding require_host
  require_host-is_allowed refuse hostname next r s = elim (Bool-cases (hostname == [])) [
    | inl any ↦ rw any refl
    | inr configured ↦ elim (Bool-cases (host_matches net r.host hostname)) [
      | inl same ↦ rw (configured, same) refl
      | inr other ↦ rw (configured, other) refl
    ]
  ]

  -- In whichever form a client names a host, the request is passed on if the host is the configured
  -- one, up to case, and answered by 421 without a call of the handler if it is not.
  pub require_host-IsHeaderFor :
      {S R : Type 0} (refuse : Response → R) (hostname host : Bytes) (next : Request → S → R × S)
      (r : Request) (s : S)
      → (hostname == []) ≡ false
      → IsHeaderFor net host r.host
      → require_host net refuse hostname next r s ≡ (
          if net.equal_fold host hostname
          then next r s
          else (refuse (plain_error (ascii "host not allowed") 421), s))
  unfolding require_host
  require_host-IsHeaderFor refuse hostname host next r s configured form =
      rw (configured, require_host, host_matches-IsHeaderFor host r.host hostname form)
        (ground arith)
