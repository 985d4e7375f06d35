-- ===== src/Receiver/Source.antt =====
-- core/receiver/handler.go: where a request comes from, and the allowlist. An address is the bytes
-- of a net.IP, four or sixteen; reading addresses from text is a parameter.
use Prim.Native.Nat.{bit_and}
use heartpost.Common.{
  ℕ, zero, suc, Bool, true, false, ◌&&◌, ◌||◌, Option, none, some, List, [], ◌∷◌, length, drop,
  ◌==◌, if◌then◌else◌, ◌>>=◌,
}
use heartpost.Common.Text.{Text, is_empty, trim_space, contains_code, text_eq}

abbrev pub Ip : Type 0
Ip = List ℕ

pub record IpNet : Type 0 where
  pub ip : Ip
  pub mask : List ℕ

-- net.ParseIP, net.ParseCIDR and the host of net.SplitHostPort.
pub record Net : Type 0 where
  pub parse_ip : Text → Option Ip
  pub parse_cidr : Text → Option IpNet
  pub split_host : Text → Option Text

abbrev v4_prefix : List ℕ
v4_prefix = 0 ∷ 0 ∷ 0 ∷ 0 ∷ 0 ∷ 0 ∷ 0 ∷ 0 ∷ 0 ∷ 0 ∷ 255 ∷ 255 ∷ []

after_prefix : List ℕ → List ℕ → Option (List ℕ)
after_prefix [] s = some s
after_prefix (d ∷ p) [] = none
after_prefix (d ∷ p) (c ∷ s) = if c == d then after_prefix p s else none

-- ip.To4()
unfoldable pub to4 : Ip → Option Ip
unfolding after_prefix
to4 ip =
    if length ip == 4 then some ip else if length ip == 16 then after_prefix v4_prefix ip else none

abbrev or_ip : Option Ip → Ip → Ip
or_ip none ip = ip
or_ip (some short) ip = short

first_byte : Ip → ℕ
first_byte [] = 0
first_byte (b ∷ bs) = b

-- ip.IsLoopback(): 127.0.0.0/8, or ::1.
unfoldable pub is_loopback : Ip → Bool
unfolding first_byte
is_loopback ip = elim (to4 ip) [
  | some short ↦ first_byte short == 127
  | none ↦ text_eq ip (0 ∷ 0 ∷ 0 ∷ 0 ∷ 0 ∷ 0 ∷ 0 ∷ 0 ∷ 0 ∷ 0 ∷ 0 ∷ 0 ∷ 0 ∷ 0 ∷ 0 ∷ 1 ∷ [])
]

masked : List ℕ → List ℕ → List ℕ → Bool
masked [] [] [] = true
masked (n ∷ ns) (m ∷ ms) (b ∷ bs) = (bit_and n m == bit_and b m) && masked ns ms bs
masked _ _ _ = false

-- n.Contains(ip): a mask of sixteen bytes on an address of four keeps its last four.
unfoldable pub contains : IpNet → Ip → Bool
unfolding masked
contains n ip =
    let base = or_ip (to4 n.ip) n.ip in
    let mask = if (length n.mask == 16) && (length base == 4) then drop 12 n.mask else n.mask in
    masked base mask (or_ip (to4 ip) ip)

ones : ℕ → List ℕ
ones zero = []
ones (suc n) = 255 ∷ ones n

-- net.CIDRMask(bits, bits), with `bits` the size of the address.
unfoldable pub single : Ip → IpNet
unfolding ones
single ip = record { ip = ip; mask = elim (to4 ip) [ none ↦ ones 16 | some short ↦ ones 4 ] }

-- One entry of the allowlist; `none` is an error.
unfoldable pub parse_allowed : Net → Text → Option IpNet
parse_allowed net v =
    if contains_code b'/' v then net.parse_cidr v else (do ip ← net.parse_ip v; some (single ip))

-- parseAllowedIPs: blank entries are left out, and one bad entry refuses the whole list.
unfoldable pub parse_allowed_ips : Net → List Text → Option (List IpNet)
parse_allowed_ips net [] = some []
parse_allowed_ips net (raw ∷ rest) =
    let v = trim_space raw in
    let others = parse_allowed_ips net rest in
    if is_empty v then others else (do n ← parse_allowed net v; ns ← others; some (n ∷ ns))

-- The text after the last comma.
unfoldable pub last_part : Text → Text → Text
last_part part [] = part
last_part part (c ∷ s) = if c == b',' then last_part s s else last_part part s

unfoldable pub forwarded_for : Net → Text → Option Ip
unfolding last_part
forwarded_for net raw = if is_empty raw then none else net.parse_ip (trim_space (last_part raw raw))

abbrev pub or_host : Option Text → Text → Text
or_host none addr = addr
or_host (some host) addr = host

-- remoteIP: the peer of the connection, or what a proxy on this host says.
unfoldable pub remote_ip : Net → Bool → Text → Text → Option Ip
unfolding forwarded_for
remote_ip net trust remote_addr header = do
  ip ← net.parse_ip (trim_space (or_host (net.split_host remote_addr) remote_addr))
  if trust && is_loopback ip then some (or_ip (forwarded_for net header) ip) else some ip

any_contains : List IpNet → Ip → Bool
any_contains [] ip = false
any_contains (n ∷ ns) ip = contains n ip || any_contains ns ip

-- ipAllowed: an empty allowlist allows every source.
unfoldable pub ip_allowed : List IpNet → Option Ip → Bool
unfolding any_contains
ip_allowed [] ip = true
ip_allowed (n ∷ ns) none = false
ip_allowed (n ∷ ns) (some ip) = any_contains (n ∷ ns) ip
