-- ===== src/Prelude/Net.antt =====
-- Go's package net, as far as the program uses it: `ParseIP`, `ParseCIDR`, `To4`, `Contains`. The
-- addresses are in Addresses.
mod Addresses
pub mod Texts
unfoldable pub use Addresses.*
use Prim.Native.Nat.{ℕ, zero, suc, ◌+◌, ◌-◌, ◌*◌, ◌/◌, ◌%◌, ◌^◌}
use Prim.Native.Char.{Char, code}
use Prim.Native.String.{String}
use mathlib.Core.Bool.{Bool, true, false, ◌&&◌, ◌||◌}
use mathlib.Core.Option.{Option, none, some}
use mathlib.Core.List.{List, [], ◌∷◌, ◌++◌}
use sgsu.Prelude.Tests.{ltb, leb, ◌==◌, if◌then◌else◌}
use sgsu.Prelude.Lists.{length, take, drop}
use sgsu.Prelude.Text.{codes, between, is_digit}

-- `net.IPNet`: the masked address and the number of ones in the mask of its form
pub record IpNet : Type 0 where
  pub ip : Ip
  pub ones : ℕ

-- The text before the first slash and the text after it
abbrev cut_slash : List ℕ → List ℕ → Option (List ℕ × List ℕ)
cut_slash before [] = none
cut_slash before (c ∷ cs) = elim (c == b'/') [
  | true ↦ some (before, cs)
  | false ↦ cut_slash (before ++ (c ∷ [])) cs
]

-- `dtoi` over a whole text
abbrev decimal : ℕ → List ℕ → Option ℕ
decimal n [] = some n
decimal n (c ∷ cs) =
    let m = n * 10 + (c - b'0') in
    elim (is_digit c && ltb m 0xffffff) [ true ↦ decimal m cs | false ↦ none ]

abbrev pub mask : (width ones n : ℕ) → ℕ
mask width ones n = n / 2 ^ (width - ones) * 2 ^ (width - ones)

-- The network of a masked address of 128 bits
abbrev long_net : ℕ → Ip → IpNet
long_net ones (v4 n) = record { ip = v4 n; ones = ones - 96 }
long_net ones (v6 n) = record { ip = v6 n; ones = ones }

abbrev net_of : Parsed → Option ℕ → Option IpNet
net_of bad _ = none
net_of (plain n) none = none
net_of (long n) none = none
net_of (plain n) (some ones) =
    if leb ones 32 then some (record { ip = v4 (mask 32 ones n); ones = ones }) else none
net_of (long n) (some ones) =
    if leb ones 128 then some (long_net ones (of_long (mask 128 ones n))) else none

abbrev prefix_length : List ℕ → Option ℕ
prefix_length [] = none
prefix_length cs = decimal 0 cs

-- `net.ParseCIDR`, the network
unfoldable pub parse_cidr : String → Option IpNet
unfolding parse_v4 parse_v6
parse_cidr s = elim (cut_slash [] (codes s)) [
  | none ↦ none
  | some (addr, len) ↦ net_of (parse_addr addr addr) (prefix_length len)
]

-- `Contains`
unfoldable pub contains : IpNet → Ip → Bool
contains net ip = elim net.ip [
  | v4 base ↦ elim ip [ v4 n ↦ mask 32 net.ones n == mask 32 net.ones base | v6 _ ↦ false ]
  | v6 base ↦ elim ip [ v4 _ ↦ false | v6 n ↦ mask 128 net.ones n == mask 128 net.ones base ]
]

-- `ip.Equal` of an address that may be nil and one that is not
abbrev pub same_ip : Option Ip → Ip → Bool
same_ip none _ = false
same_ip (some (v4 a)) (v4 b) = a == b
same_ip (some (v6 a)) (v6 b) = a == b
same_ip _ _ = false

abbrev add_before : Char → Option (String × String) → Option (String × String)
add_before c none = none
add_before c (some (a, b)) = some (String.◌∷◌ c a, b)

-- `strings.SplitN(s, sep, 2)` for a separator of one character, where it gives two parts
abbrev pub split_once : ℕ → String → Option (String × String)
split_once sep String.[] = none
split_once sep (String.◌∷◌ c s) = elim (code c == sep) [
  | true ↦ some (String.[], s)
  | false ↦ add_before c (split_once sep s)
]

abbrev if_net : Option IpNet → Option Ip → Option Ip
if_net none ip = none
if_net (some _) ip = ip

-- `net.ParseCIDR`, the address
unfoldable pub cidr_ip : String → Option Ip
unfolding parse_v4 parse_v6
cidr_ip s = elim (cut_slash [] (codes s)) [
  | none ↦ none
  | some (addr, len) ↦
      if_net (net_of (parse_addr addr addr) (prefix_length len)) (to_ip (parse_addr addr addr))
]
