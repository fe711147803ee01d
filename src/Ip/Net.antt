-- ===== src/Ip/Net.antt =====
-- What internal/ip uses of Go's net and net/netip. An address is its 4 or 16 bytes. Reading and
-- printing addresses is the parameter `Codec`; the rest is written out.
use Prim.Native.Nat.{bit_and}
use traefik_cluster_ratelimi.Common.{
  ℕ, zero, suc, ◌+◌, ◌-◌, ◌/◌, ◌^◌, Bool, true, false, ◌&&◌, Option, none, some, List, [], ◌∷◌,
  if◌then◌else◌, ◌==◌, leb, ltb, length, drop, take,
}
use traefik_cluster_ratelimi.Common.Bytes.{Bytes, bytes_eq, index_byte, last_index_byte}
use traefik_cluster_ratelimi.Common.Result.{Result}

abbrev pub Address : Type 0
Address = List ℕ

pub record Network : Type 0 where
  pub ip : Address
  pub mask : List ℕ

-- net.ParseIP and netip.ParseAddr followed by As16 give 16 bytes; net.ParseCIDR gives the masked
-- network, or its error; net.IP.String prints.
pub record Codec : Type 0 where
  pub parse_ip : Bytes → Option Address
  pub parse_addr : Bytes → Option Address
  pub parse_cidr : Bytes → Result Network
  pub to_string : Address → Bytes

abbrev pub v4_in_v6_prefix : List ℕ
v4_in_v6_prefix = 0 ∷ 0 ∷ 0 ∷ 0 ∷ 0 ∷ 0 ∷ 0 ∷ 0 ∷ 0 ∷ 0 ∷ 255 ∷ 255 ∷ []

-- IP.To4
unfoldable pub to4 : Address → Option Address
to4 ip =
    if length ip == 4
    then some ip
    else if (length ip == 16) && bytes_eq (take 12 ip) v4_in_v6_prefix
    then some (drop 12 ip)
    else none

-- IP.Equal
unfoldable pub equal : Address → Address → Bool
equal ip x =
    if length ip == length x
    then bytes_eq ip x
    else if (length ip == 4) && (length x == 16)
    then bytes_eq (take 12 x) v4_in_v6_prefix && bytes_eq ip (drop 12 x)
    else if (length ip == 16) && (length x == 4)
    then bytes_eq (take 12 ip) v4_in_v6_prefix && bytes_eq (drop 12 ip) x
    else false

abbrev pub mask_bytes : List ℕ → List ℕ → List ℕ
mask_bytes [] m = []
mask_bytes (b ∷ bs) [] = []
mask_bytes (b ∷ bs) (m ∷ ms) = bit_and b m ∷ mask_bytes bs ms

abbrev pub all_ff : List ℕ → Bool
all_ff [] = true
all_ff (b ∷ bs) = (b == 255) && all_ff bs

-- IP.Mask
unfoldable pub mask : Address → List ℕ → Option Address
mask ip m =
    let m' = if (length m == 16) && (length ip == 4) && all_ff (take 12 m) then drop 12 m else m in
    let ip' =
      if (length m' == 4) && (length ip == 16) && bytes_eq (take 12 ip) v4_in_v6_prefix
      then drop 12 ip
      else ip in
    if length ip' == length m' then some (mask_bytes ip' m') else none

abbrev or_else : Option Address → Address → Address
or_else none d = d
or_else (some a) d = a

-- networkNumberAndMask
abbrev network_number_and_mask : Network → Option (Address × List ℕ)
network_number_and_mask n =
    let ip = or_else (to4 n.ip) n.ip in
    if (length n.mask == 4) && (length ip == 4)
    then some (ip, n.mask)
    else if (length n.mask == 16) && (length ip == 4)
    then some (ip, drop 12 n.mask)
    else if (length n.mask == 16) && (length ip == 16)
    then some (ip, n.mask)
    else none

-- IPNet.Contains
unfoldable pub net_contains : Network → Address → Bool
unfolding to4
net_contains n addr =
    let x = or_else (to4 addr) addr in
    elim (network_number_and_mask n) [
      | none ↦ false
      | some (nn, m) ↦ (length x == length nn) && bytes_eq (mask_bytes nn m) (mask_bytes x m)
    ]

-- CIDRMask over 128 bits: bytes of ones, one mixed byte, zeros; nil for a prefix over 128
unfoldable pub cidr_mask_bytes : ℕ → ℕ → List ℕ
cidr_mask_bytes zero n = []
cidr_mask_bytes (suc l) n =
    if leb 8 n then 255 ∷ cidr_mask_bytes l (n - 8) else (255 - 255 / 2 ^ n) ∷ cidr_mask_bytes l 0

unfoldable pub cidr_mask : ℕ → List ℕ
unfolding cidr_mask_bytes
cidr_mask ones = if ltb 128 ones then [] else cidr_mask_bytes 16 ones

abbrev is_missing : Option ℕ → Bool
is_missing none = true
is_missing (some j) = false

-- The cases of SplitHostPort for a text with its last colon at `i`.
split_bracketed : Bytes → ℕ → ℕ → Option (Bytes × Bytes)
split_bracketed s i end =
    if (end + 1 == i)
      && is_missing (index_byte (drop 1 s) b'[')
      && is_missing (index_byte (drop (end + 1) s) b']')
    then some (drop 1 (take end s), drop (i + 1) s)
    else none

split_plain : Bytes → ℕ → Option (Bytes × Bytes)
split_plain s i =
    if is_missing (index_byte (take i s) b':')
      && is_missing (index_byte s b'[')
      && is_missing (index_byte s b']')
    then some (take i s, drop (i + 1) s)
    else none

starts_bracketed : Bytes → Bool
starts_bracketed [] = false
starts_bracketed (c ∷ s) = c == b'['

-- net.SplitHostPort: host and port, or `none` where it returns an error
unfoldable pub split_host_port : Bytes → Option (Bytes × Bytes)
unfolding split_bracketed split_plain starts_bracketed index_byte last_index_byte
split_host_port s = elim (last_index_byte s b':') [
  | none ↦ none
  | some i ↦
      if starts_bracketed s
      then (elim (index_byte s b']') [ none ↦ none | some end ↦ split_bracketed s i end ])
      else split_plain s i
]
