-- ===== src/Net.antt =====
-- What the code uses of Go's package `net`: addresses and networks. The two parsers of texts are
-- parameters: nothing that is proved depends on which texts they accept.
use em_wall.Prelude.{ℕ, ◌/◌, ◌^◌, Bool, false, Option, Text, ◌==◌, nat_eq}

-- net.IP. An IPv4 address in its 16-byte form is the IPv4 address, as `To4` has it.
pub data Ip : Type 0 where
  v4 : ℕ → Ip
  v6 : ℕ → Ip

-- net.IPNet: the address, the bits that the mask leaves free, and the first value that
-- `Mask.Size` returns.
pub record IpNet : Type 0 where
  pub ip : Ip
  pub free_bits : ℕ
  pub ones : ℕ

-- net.CIDRMask(bits, bits) over an address
abbrev pub host_net : Ip → IpNet
host_net (v4 a) = record { ip = v4 a; free_bits = 0; ones = 32 }
host_net (v6 a) = record { ip = v6 a; free_bits = 0; ones = 128 }

abbrev same_prefix : ℕ → Ip → Ip → Bool
same_prefix k (v4 a) (v4 b) = a / 2 ^ k == b / 2 ^ k
same_prefix k (v6 a) (v6 b) = a / 2 ^ k == b / 2 ^ k
same_prefix _ _ _ = false

-- (*IPNet).Contains
unfoldable pub contains : IpNet → Ip → Bool
contains n ip = same_prefix n.free_bits n.ip ip

pub record Parsers : Type 0 where
  -- net.ParseIP
  pub parse_ip : Text → Option Ip
  -- the network that net.ParseCIDR returns, or `none` with an error
  pub parse_cidr : Text → Option IpNet
