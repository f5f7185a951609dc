-- ===== src/RateLimit/Subject.antt =====
-- internal/server/middleware/clientip.go: who a request is charged to; ratelimit.go, `bucketKey`. The
-- addresses of net/netip and SHA-256 are parameters.
pub mod Keys
use mdfly.Common.{
  ◌==◌, if◌then◌else◌, take, any, Str, codes, is_empty, has_byte, trim, is_space, ℕ, Bool, false,
  not, ◌&&◌, ◌||◌, Option, none, some, List, [], ◌∷◌, ◌++◌,
}
use mdfly.Common.Hex.{encode}
use mdfly.Common.Split.{cut}
use mdfly.Common.Decimal.{itoa}
use mdfly.Httpx.{bearer_token}

-- What the middleware reads of a request; a header that is not set is empty.
pub record Request : Type 0 where
  pub remote_addr : Str
  pub authorization : Str
  pub connecting_ip : Str

-- netip: an address by its text, and what is asked of one.
pub record Netip (Addr : Type 0) : Type 0 where
  pub parse_addr : Str → Option Addr
  pub is_loopback : Addr → Bool
  pub is_private : Addr → Bool
  pub prefix_contains : Str → Addr → Bool

unfoldable pub cloudflare_ranges : List Str
cloudflare_ranges =
    codes "173.245.48.0/20"
    ∷ codes "103.21.244.0/22"
    ∷ codes "103.22.200.0/22"
    ∷ codes "103.31.4.0/22"
    ∷ codes "141.101.64.0/18"
    ∷ codes "108.162.192.0/18"
    ∷ codes "190.93.240.0/20"
    ∷ codes "188.114.96.0/20"
    ∷ codes "197.234.240.0/22"
    ∷ codes "198.41.128.0/17"
    ∷ codes "162.158.0.0/15"
    ∷ codes "104.16.0.0/13"
    ∷ codes "104.24.0.0/14"
    ∷ codes "172.64.0.0/13"
    ∷ codes "131.0.72.0/22"
    ∷ codes "2400:cb00::/32"
    ∷ codes "2606:4700::/32"
    ∷ codes "2803:f800::/32"
    ∷ codes "2405:b500::/32"
    ∷ codes "2405:8100::/32"
    ∷ codes "2a06:98c0::/29"
    ∷ codes "2c0f:f248::/32"
    ∷ []

-- The string around the last `c`.
unfoldable pub last_cut : ℕ → Str → Option (Str × Str)
last_cut c [] = none
last_cut c (x ∷ s) = elim (last_cut c s) [
  | some (before, behind) ↦ some (x ∷ before, behind)
  | none ↦ if x == c then some ([], s) else none
]

-- The host behind a bracket: up to the closing one, which a colon and the port follow.
unfoldable pub bracketed : Str → Str × Option Str → Option Str
unfolding has_byte
bracketed s (host, none) = none
bracketed s (host, some []) = none
bracketed s (host, some (c ∷ port)) =
    if c == b':' && not (has_byte b':' port) && not (has_byte b'[' s) && not (has_byte b']' port)
    then some host
    else none

unfoldable pub unbracketed : Str → Option (Str × Str) → Option Str
unfolding has_byte
unbracketed s none = none
unbracketed s (some (host, port)) =
    if has_byte b':' host || has_byte b'[' s || has_byte b']' s then none else some host

-- The host of `net.SplitHostPort`; `none` is its error.
unfoldable pub split_host : Str → Option Str
unfolding bracketed unbracketed cut last_cut
split_host [] = none
split_host (c ∷ s) =
    if c == b'[' then bracketed s (cut b']' s) else unbracketed (c ∷ s) (last_cut b':' (c ∷ s))

-- `peerIP`
unfoldable pub peer_ip : Str → Str
unfolding split_host
peer_ip addr = elim (split_host addr) [ none ↦ addr | some host ↦ host ]

-- `strings.ReplaceAll` of one byte by another.
unfoldable pub replace_byte : ℕ → ℕ → Str → Str
replace_byte a b [] = []
replace_byte a b (c ∷ s) = (if c == a then b else c) ∷ replace_byte a b s

module _ {Addr : Type 0} (netip : Netip Addr) where
  unfoldable pub from_trusted_proxy : Str → Bool
  unfolding cloudflare_ranges
  from_trusted_proxy ip = elim (netip.parse_addr ip) [
    | none ↦ false
    | some addr ↦
        netip.is_loopback addr
        || netip.is_private addr
        || any (λ prefix. netip.prefix_contains prefix addr) cloudflare_ranges
  ]

  unfoldable pub client_ip : Request → Str
  unfolding peer_ip trim from_trusted_proxy is_empty
  client_ip r =
      let peer = peer_ip r.remote_addr in
      let claimed = trim is_space r.connecting_ip in
      if is_empty claimed || not (from_trusted_proxy peer) then peer else claimed

abbrev pub fingerprint_len : ℕ
fingerprint_len = 16

unfoldable pub fingerprint : (Str → Str) → Str → Str
unfolding encode
fingerprint sha256 token = take fingerprint_len (encode (sha256 token))

unfoldable pub rate_limit_subject : {Addr : Type 0} → Netip Addr → (Str → Str) → Request → Str
unfolding bearer_token is_empty fingerprint client_ip replace_byte
rate_limit_subject netip sha256 r =
    let token = bearer_token r.authorization in
    if not (is_empty token)
    then codes "token:" ++ fingerprint sha256 token
    else codes "ip:" ++ replace_byte b':' b'.' (client_ip netip r)

-- `bucketKey` of a window's name and of the step of a time.
unfoldable pub bucket_key : Str → Str → ℕ → Str
unfolding itoa
bucket_key subject name step = codes "rl:" ++ (subject ++ (b':' ∷ (name ++ (b':' ∷ itoa step))))
