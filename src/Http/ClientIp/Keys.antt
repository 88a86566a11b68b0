-- ===== src/Http/ClientIp/Keys.antt =====
-- internal/httpapi/clientip.go: which clients share a key, and who can choose it.
use go_clipboard.Base.{
  ℕ, zero, suc, ◌*◌, ◌/◌, ◌-◌, ◌^◌, ◌<◌, ◌≡◌, ◌≢◌, ◌↔◌, refl, ap, sym, ◌∙◌, ◌⊎◌, inl, inr, true,
  false, Bytes, ascii, ◌==◌, ==_iff, [], ◌∷◌, ◌++◌, ℤ, Option, none, some, arith, false≢true,
}
use go_clipboard.Http.{Request}
use go_clipboard.Http.ClientIp.{
  Ip, v4, v6, Net, ClientIpConfig, split, comma, effective_prefix, mask, direct_ip, hop,
  is_trusted_hop, entry_or, first_entry, parse_forwarded_for, bucket_ip, chosen_ip, client_ip,
}
use go_clipboard.Http.ClientIp.Split.{contains, split-append, split_one}
use mathlib.Core.List.{reverse-append, append_cancel_right}
use native.Mathlib.Nat.{mul-div_cancel}

append-ne : (s : Bytes) (c : ℕ) (t : Bytes) → ((s ++ (c ∷ t)) == []) ≡ false
unfolding ◌==◌
append-ne [] c t = refl
append-ne (b ∷ s) c t = refl

contains-append : (c : ℕ) (s t : Bytes) → contains c (s ++ (c ∷ t)) ≡ true
unfolding contains
contains-append c [] t = ground arith
contains-append c (b ∷ s) t = ground (arith, contains-append c s t)

two_pow_pos : (k : ℕ) → 0 < 2 ^ k
two_pow_pos zero = omega arith
two_pow_pos (suc k) = omega (arith, two_pow_pos k)

mask-eq :
    (prefix a b : ℕ)
    → mask prefix a ≡ mask prefix b
    → a / 2 ^ (128 - prefix) ≡ b / 2 ^ (128 - prefix)
unfolding mask
mask-eq prefix a b h =
    let positive : 0 < 2 ^ (128 - prefix) = two_pow_pos (128 - prefix) in
    sym (mul-div_cancel (a / 2 ^ (128 - prefix)) positive)
    ∙ ap (λ n. n / 2 ^ (128 - prefix)) h
    ∙ mul-div_cancel (b / 2 ^ (128 - prefix)) positive

abbrev bits : Ip → ℕ
bits (v4 n) = n
bits (v6 n) = n

-- Two addresses stand for one client: the same IPv4 address, or IPv6 addresses in one network.
abbrev pub IsSameClient : ℤ → Ip → Ip → Type 0
IsSameClient prefix (v4 a) (v4 b) = a ≡ b
IsSameClient prefix (v4 a) (v6 b) = ⊥
IsSameClient prefix (v6 a) (v4 b) = ⊥
IsSameClient prefix (v6 a) (v6 b) =
    a / 2 ^ (128 - effective_prefix prefix) ≡ b / 2 ^ (128 - effective_prefix prefix)

module _ (net : Net) where
  not_trusted :
      (remote_addr trusted : Bytes)
      → (trusted ≡ []) ⊎ (hop net remote_addr ≢ trusted)
      → is_trusted_hop net remote_addr trusted ≡ false
  unfolding is_trusted_hop ◌==◌
  not_trusted remote_addr trusted (inl h) = rw h refl
  not_trusted remote_addr trusted (inr h) =
      ground (arith, h, (==_iff (hop net remote_addr) trusted).0)

  first_entry_last :
      (earlier entry : Bytes) (ip : Ip)
      → contains comma entry ≡ false
      → (net.trim_space entry == []) ≡ false
      → net.parse_ip (net.trim_space entry) ≡ some ip
      → parse_forwarded_for net (earlier ++ (comma ∷ entry)) ≡ some ip
  unfolding parse_forwarded_for first_entry entry_or
  first_entry_last earlier entry ip whole named parsed =
      rw
        (
          append-ne earlier comma entry,
          parse_forwarded_for,
          split-append comma earlier entry,
          split_one comma entry whole,
          reverse-append (split comma earlier) (entry ∷ []),
        )
        (rw (named, parsed) refl)

  -- Behind a trusted hop that appends the address it sees, a client cannot choose its key: whatever
  -- the header held before, the entry that was appended decides, given that it parses, is not blank and
  -- holds no comma.
  pub client_ip-appended :
      (r : Request) (cfg : ClientIpConfig) (earlier entry : Bytes) (ip : Ip)
      → is_trusted_hop net r.remote_addr cfg.trusted_proxy ≡ true
      → r.forwarded_for ≡ earlier ++ (comma ∷ entry)
      → contains comma entry ≡ false
      → (net.trim_space entry == []) ≡ false
      → net.parse_ip (net.trim_space entry) ≡ some ip
      → client_ip net r cfg ≡ bucket_ip net (some ip) cfg.ipv6_prefix
  unfolding client_ip chosen_ip
  client_ip-appended r cfg earlier entry ip trusted header whole named parsed =
      rw
        (
          trusted,
          client_ip,
          chosen_ip,
          header,
          first_entry_last earlier entry ip whole named parsed,
        )
        refl

  -- From a hop that is not the trusted one, the header does not matter.
  pub client_ip-untrusted :
      (r : Request) (cfg : ClientIpConfig) (header : Bytes)
      → (cfg.trusted_proxy ≡ []) ⊎ (hop net r.remote_addr ≢ cfg.trusted_proxy)
      → client_ip net (record r { forwarded_for = header }) cfg ≡ client_ip net r cfg
  unfolding client_ip chosen_ip
  client_ip-untrusted r cfg header h =
      rw (not_trusted r.remote_addr cfg.trusted_proxy h, client_ip, chosen_ip, direct_ip) refl

  kinds_differ :
      (a b : ℕ) (prefix : ℤ)
      → contains 47 (net.ip_string (v4 a)) ≡ false
      → bucket_ip net (some (v4 a)) prefix ≢ bucket_ip net (some (v6 b)) prefix
  unfolding bucket_ip
  kinds_differ a b prefix plain h =
      let printed = net.ip_string (v6 (mask (effective_prefix prefix) b)) in
      let slash = contains-append 47 printed (net.itoa (effective_prefix prefix)) in
      absurd (ground (arith, ap (contains 47) h, plain, slash))

  same_network :
      (prefix : ℤ) (a b : ℕ)
      → ((x y : Ip) → net.ip_string x ≡ net.ip_string y → x ≡ y)
      → bucket_ip net (some (v6 a)) prefix ≡ bucket_ip net (some (v6 b)) prefix
      → mask (effective_prefix prefix) a ≡ mask (effective_prefix prefix) b
  unfolding bucket_ip
  same_network prefix a b distinct h =
      let printed = append_cancel_right _ _ _ h in ap (λ (x : Ip). bits x) (distinct _ _ printed)

  bucket_ip-nonempty :
      (o : Option Ip) (prefix : ℤ) → ((a : Ip) → net.ip_string a ≢ []) → bucket_ip net o prefix ≢ []
  unfolding bucket_ip
  bucket_ip-nonempty none prefix printed = ground arith
  bucket_ip-nonempty (some (v4 n)) prefix printed = printed (v4 n)
  bucket_ip-nonempty (some (v6 n)) prefix printed = λ h. false≢true (
      sym (
        append-ne (net.ip_string (v6 (mask (effective_prefix prefix) n))) 47
          (net.itoa (effective_prefix prefix)))
      ∙ (==_iff _ _).1 h)

  -- A key is never empty, given that no address is printed as the empty text.
  pub client_ip-nonempty :
      (r : Request) (cfg : ClientIpConfig)
      → ((a : Ip) → net.ip_string a ≢ [])
      → client_ip net r cfg ≢ []
  unfolding client_ip
  client_ip-nonempty r cfg printed =
      bucket_ip-nonempty (chosen_ip net r cfg.trusted_proxy) cfg.ipv6_prefix printed

  -- Given that addresses are printed without a slash and no two alike: two clients share a key
  -- exactly when they have the same IPv4 address, or IPv6 addresses that agree in the leading bits of
  -- the configured prefix (64 if it is not between 1 and 128).
  pub bucket_ip-same_iff :
      (prefix : ℤ) (x y : Ip)
      → ((a b : Ip) → net.ip_string a ≡ net.ip_string b → a ≡ b)
      → ((a : Ip) → contains 47 (net.ip_string a) ≡ false)
      → (bucket_ip net (some x) prefix ≡ bucket_ip net (some y) prefix) ↔ IsSameClient prefix x y
  unfolding bucket_ip mask
  bucket_ip-same_iff prefix (v4 a) (v4 b) distinct plain =
      (λ h. ground (arith, distinct (v4 a) (v4 b) h), λ h. rw h refl)
  bucket_ip-same_iff prefix (v4 a) (v6 b) distinct plain =
      (λ h. absurd (kinds_differ a b prefix (plain (v4 a)) h), λ h. absurd h)
  bucket_ip-same_iff prefix (v6 a) (v4 b) distinct plain =
      (λ h. absurd (kinds_differ b a prefix (plain (v4 b)) (sym h)), λ h. absurd h)
  bucket_ip-same_iff prefix (v6 a) (v6 b) distinct plain = (
    λ h. mask-eq (effective_prefix prefix) a b (same_network prefix a b distinct h),
    λ h.
        ap
          (λ (n : ℕ).
            net.ip_string (v6 (n * 2 ^ (128 - effective_prefix prefix)))
            ++ (ascii "/" ++ net.itoa (effective_prefix prefix)))
          h,
  )
