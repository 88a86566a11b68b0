-- ===== src/Http/ClientIp.antt =====
-- internal/httpapi/clientip.go: the key under which a client is limited.
-- The packages net, strings and strconv are parameters, as far as the file calls them. An address is
-- one of the two kinds that `To4` tells apart, with its bits as a number.
pub mod Split
pub mod Keys
use go_clipboard.Base.{
  ℕ, ◌-◌, ◌*◌, ◌/◌, ◌^◌, Bool, true, false, ◌||◌, Bytes, ascii, ◌==◌, List, [], ◌∷◌, ◌++◌, ℤ, pos,
  negsuc, Option, none, some, if◌then◌else◌, eqb, ltb,
}
use go_clipboard.Http.{Request}
use mathlib.Core.List.{reverse}

-- net.IP. To4 is nil exactly on the addresses `v6`.
pub data Ip : Type 0 where
  v4 v6 : ℕ → Ip

-- net.SplitHostPort (its host, or an error), net.ParseIP, IP.String, strings.TrimSpace, strconv.Itoa
-- and strings.EqualFold.
pub record Net : Type 0 where
  pub split_host_port : Bytes → Option Bytes
  pub parse_ip : Bytes → Option Ip
  pub ip_string : Ip → Bytes
  pub trim_space : Bytes → Bytes
  pub itoa : ℕ → Bytes
  pub equal_fold : Bytes → Bytes → Bool

pub record ClientIpConfig : Type 0 where
  pub trusted_proxy : Bytes
  pub ipv6_prefix : ℤ

-- strings.Split, for a separator of one byte.
unfoldable pub prepend : ℕ → List Bytes → List Bytes
prepend b [] = (b ∷ []) ∷ []
prepend b (part ∷ parts) = (b ∷ part) ∷ parts

unfoldable pub split : ℕ → Bytes → List Bytes
unfolding prepend
split c [] = [] ∷ []
split c (b ∷ s) = let parts = split c s in if eqb b c then [] ∷ parts else prepend b parts

abbrev pub comma : ℕ
comma = 44

-- The number of leading bits that tells clients apart.
unfoldable pub effective_prefix : ℤ → ℕ
effective_prefix (pos n) = if eqb n 0 || ltb 128 n then 64 else n
effective_prefix (negsuc n) = 64

-- ip.Mask(net.CIDRMask(prefixLen, 128)).
unfoldable pub mask : ℕ → ℕ → ℕ
mask prefix n = n / 2 ^ (128 - prefix) * 2 ^ (128 - prefix)

module _ (net : Net) where
  unfoldable pub direct_ip : Request → Option Ip
  direct_ip r = elim (net.split_host_port r.remote_addr) [
    | none ↦ net.parse_ip r.remote_addr
    | some host ↦ net.parse_ip host
  ]

  unfoldable pub hop : Bytes → Bytes
  hop remote_addr = elim (net.split_host_port remote_addr) [ none ↦ remote_addr | some host ↦ host ]

  unfoldable pub is_trusted_hop : Bytes → Bytes → Bool
  unfolding hop
  is_trusted_hop remote_addr trusted = if trusted == [] then false else hop remote_addr == trusted

  -- The body of the loop in `parseForwardedFor`, and what the later iterations give.
  unfoldable pub entry_or : Bytes → Option Ip → Option Ip
  entry_or part next =
      if part == [] then next else (elim (net.parse_ip part) [ some ip ↦ some ip | none ↦ next ])

  -- The loop over the parts, in the order in which it visits them.
  unfoldable pub first_entry : List Bytes → Option Ip
  unfolding entry_or
  first_entry [] = none
  first_entry (part ∷ parts) = entry_or (net.trim_space part) (first_entry parts)

  unfoldable pub parse_forwarded_for : Bytes → Option Ip
  unfolding split first_entry
  parse_forwarded_for header =
      if header == [] then none else first_entry (reverse (split comma header))

  unfoldable pub bucket_ip : Option Ip → ℤ → Bytes
  unfolding effective_prefix mask
  bucket_ip none prefix = ascii "unknown"
  bucket_ip (some (v4 n)) prefix = net.ip_string (v4 n)
  bucket_ip (some (v6 n)) prefix =
      net.ip_string (v6 (mask (effective_prefix prefix) n))
      ++ (ascii "/" ++ net.itoa (effective_prefix prefix))

  -- The address that counts: the forwarded one, if the hop is trusted and names one.
  unfoldable pub chosen_ip : Request → Bytes → Option Ip
  unfolding direct_ip is_trusted_hop parse_forwarded_for
  chosen_ip r trusted =
      if is_trusted_hop r.remote_addr trusted
      then (elim (parse_forwarded_for r.forwarded_for) [
        | some forwarded ↦ some forwarded
        | none ↦ direct_ip r
      ])
      else direct_ip r

  unfoldable pub client_ip : Request → ClientIpConfig → Bytes
  unfolding chosen_ip bucket_ip
  client_ip r cfg = bucket_ip (chosen_ip r cfg.trusted_proxy) cfg.ipv6_prefix
