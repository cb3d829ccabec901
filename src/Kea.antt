-- ===== src/Kea.antt =====
-- internal/adapters/kea/subnets.go: the IPv4 subnets in the configuration of the DHCP server, and
-- the conversion of addresses of internal/adapters/kea/hosts.go.
pub mod Ids
pub mod Hosts
pub mod Overlap
pub mod Transaction
pub mod Blocklist
use Prim.Native.String
use sgsu.Prelude.{
  ℕ, suc, ◌-◌, ◌^◌, Bool, true, false, not, ◌&&◌, ◌||◌, Option, none, some, String, List, [], ◌∷◌,
  ◌++◌, str_eq, ltb, ◌==◌, if◌then◌else◌, any, all, keep,
}
use sgsu.Prelude.Integers.{ℤ, pos, negsuc, eq_int}
use sgsu.Prelude.Text.{codes, trim_space, matches, is_lower, is_upper, is_digit}
use sgsu.Prelude.Net.{Ip, IpNet, parse_ip, parse_cidr, to4, contains}
use sgsu.Prelude.Json.{
  Json, num, int, string, list, object, bool, Fields, empty, field, get, set, unset, as_text,
  as_list, as_object, of_elements,
}

-- `SubnetSpec`
pub record SubnetSpec : Type 0 where
  pub subnet : String
  pub pool_start : String
  pub pool_end : String
  pub router : String
  pub domain : String
  pub dns_servers : List String
  pub interface : String

-- `IP4ToInt`
unfoldable pub ip4_to_int : String → Option ℕ
ip4_to_int s = to4 (parse_ip (trim_space s))

abbrev is_iface_char : ℕ → Bool
is_iface_char c = is_lower c || is_upper c || is_digit c || c == b'.' || c == b'_' || c == b'-'

-- `Contains` of an address that may be nil
abbrev pub contains_ip : IpNet → Option Ip → Bool
contains_ip net none = false
contains_ip net (some ip) = contains net ip

abbrev is_some {ℓ} : {A : Type ℓ} → Option A → Bool
is_some none = false
is_some (some _) = true

-- The parts of `Validate`: the pool, the router, and the other fields
unfoldable pub pool_ok : IpNet → SubnetSpec → Bool
pool_ok net s = elim (ip4_to_int s.pool_start) [
  | none ↦ false
  | some start ↦ elim (ip4_to_int s.pool_end) [
    | none ↦ false
    | some end ↦
        not (ltb end start)
        && (contains_ip net (parse_ip s.pool_start) && contains_ip net (parse_ip s.pool_end))
  ]
]

unfoldable pub router_ok : IpNet → SubnetSpec → Bool
router_ok net s = str_eq s.router "" || contains_ip net (parse_ip s.router)

unfoldable pub names_ok : SubnetSpec → Bool
names_ok s =
    all (λ d. is_some (parse_ip (trim_space d))) s.dns_servers
    && (str_eq s.interface "" || matches is_iface_char is_iface_char 0 14 (codes s.interface))

-- `Validate`
unfoldable pub validate : SubnetSpec → Bool
validate s = elim (parse_cidr (trim_space s.subnet)) [
  | none ↦ false
  | some net ↦ is_some (to4 (some net.ip)) && (pool_ok net s && (router_ok net s && names_ok s))
]

abbrev set_default : String → Json → Fields → Fields
set_default k v m = elim (get k m) [ none ↦ set k v m | some _ ↦ m ]

-- `EnsureSocketResilience`
unfoldable pub ensure_socket_resilience : Fields → Fields
ensure_socket_resilience m = set_default "re-detect" (bool true) (
    set_default "service-sockets-retry-wait-time" (int (pos 5000))
      (set_default "service-sockets-max-retries" (int (pos 5)) m))

abbrev pub interfaces_config : Fields → Fields
interfaces_config dhcp4 = elim (as_object (get "interfaces-config" dhcp4)) [
  | none ↦ empty
  | some m ↦ m
]

-- `EnsureDefaults`
unfoldable pub ensure_defaults : Fields → Fields
unfolding ensure_socket_resilience
ensure_defaults dhcp4 =
    set "interfaces-config" (object (ensure_socket_resilience (interfaces_config dhcp4))) dhcp4

-- `EnsureInterface`
unfoldable pub ensure_interface : Fields → String → Fields
unfolding ensure_defaults
ensure_interface dhcp4 iface =
    let d = ensure_defaults dhcp4 in
    let ic = interfaces_config d in
    let listed = as_list (get "interfaces" ic) in
    if str_eq iface ""
      || any (λ v. str_eq (as_text (some v)) iface || str_eq (as_text (some v)) "*") listed
    then d
    else set "interfaces-config"
        (object (set "interfaces" (list (of_elements (listed ++ (string iface ∷ [])))) ic)) d

-- `subnetSlice`
abbrev pub subnet_slice : Fields → List Json
subnet_slice dhcp4 = as_list (get "subnet4" dhcp4)

abbrev as_id : Option Json → ℤ
as_id (some (num n)) = n
as_id _ = pos 0

-- `subnetID`: an id that is a float64, as JSON is decoded, and 0 for any other, an int64 too
unfoldable pub subnet_id : Json → ℤ
subnet_id (object m) = as_id (get "id" m)
subnet_id _ = pos 0

-- `m["subnet"]` of an entry that is an object
abbrev pub subnet_text : Json → Option String
subnet_text (object m) = some (as_text (get "subnet" m))
subnet_text _ = none

abbrev join : List String → String
join [] = ""
join (s ∷ []) = s
join (s ∷ ss) = String.◌++◌ s (String.◌++◌ ", " (join ss))

abbrev option_entry : String → String → Json
option_entry name data_text =
    object (field "name" (string name) (field "data" (string data_text) empty))

-- `optionData`
unfoldable pub option_data : SubnetSpec → Json
option_data s =
    let routers = if str_eq s.router "" then [] else option_entry "routers" s.router ∷ [] in
    let servers : List Json = elim s.dns_servers [
      | [] ↦ []
      | d ∷ ds ↦ option_entry "domain-name-servers" (join (d ∷ ds)) ∷ []
    ] in
    let domains = if str_eq s.domain "" then [] else option_entry "domain-name" s.domain ∷ [] in
    list (of_elements (routers ++ servers ++ domains))

-- `pools`
unfoldable pub pools : SubnetSpec → Json
pools s = list (
    of_elements (
      object (field "pool" (string (String.◌++◌ s.pool_start (String.◌++◌ " - " s.pool_end))) empty)
      ∷ []))

-- `CIDRsOverlap`
unfoldable pub cidrs_overlap : String → String → Bool
cidrs_overlap a b = elim (parse_cidr a) [
  | none ↦ false
  | some an ↦ elim (parse_cidr b) [
    | none ↦ false
    | some bn ↦ contains an bn.ip || contains bn an.ip
  ]
]

-- Whether an entry makes `AddSubnet` refuse
unfoldable pub conflicts : String → Json → Bool
conflicts subnet entry = elim (subnet_text entry) [
  | none ↦ false
  | some existing ↦ str_eq existing subnet || cidrs_overlap existing subnet
]

-- `if id > maxID`
abbrev pub raise : ℕ → ℤ → ℕ
raise n (pos m) = if ltb n m then m else n
raise n (negsuc m) = n

-- The largest id, at least 0
unfoldable pub max_id : ℕ → List Json → ℕ
unfolding subnet_id
max_id n [] = n
max_id n (e ∷ es) = max_id (raise n (subnet_id e)) es

-- `maxID + 1` in 64 bits
abbrev pub next_id : ℕ → ℤ
next_id n = if n == 2 ^ 63 - 1 then negsuc (2 ^ 63 - 1) else pos (suc n)

-- The entry that `AddSubnet` makes
unfoldable pub new_entry : ℤ → SubnetSpec → Json
unfolding pools option_data
new_entry id s =
    let m = field "id" (int id) (
      field "subnet" (string s.subnet)
        (field "pools" (pools s) (field "option-data" (option_data s) empty))) in
    object (if str_eq s.interface "" then m else set "interface" (string s.interface) m)

-- `AddSubnet`: the configuration that is left, and the id if it succeeds. The checks of all
-- entries come before the first change but for `EnsureDefaults`.
unfoldable pub add_subnet : Fields → SubnetSpec → Fields × Option ℤ
add_subnet dhcp4 s =
    let d = ensure_defaults dhcp4 in
    let subnets = subnet_slice d in
    let id = next_id (max_id 0 subnets) in
    let d' = if str_eq s.interface "" then d else ensure_interface d s.interface in
    if not (validate s)
    then (dhcp4, none)
    else if any (conflicts s.subnet) subnets
    then (d, none)
    else (set "subnet4" (list (of_elements (subnets ++ (new_entry id s ∷ [])))) d', some id)

-- The entry that `UpdateSubnet` leaves
unfoldable pub updated_entry : SubnetSpec → Fields → Fields
unfolding pools option_data
updated_entry s m =
    let m' = set "option-data" (option_data s) (set "pools" (pools s) m) in
    if str_eq s.interface "" then unset "interface" m' else set "interface" (string s.interface) m'

-- How the loop of `UpdateSubnet` ends: without a match, at an entry with another text, in a failed
-- type assertion, or with the entries that are left
pub data Update : Type 0 where
  missing : Update
  other_subnet : Update
  crashed : Update
  updated : List Json → Update

abbrev pub after_entry : Json → Update → Update
after_entry e (updated es) = updated (e ∷ es)
after_entry e missing = missing
after_entry e other_subnet = other_subnet
after_entry e crashed = crashed

unfoldable pub update_entry : SubnetSpec → Json → List Json → Update
unfolding updated_entry
update_entry s (object m) es =
    if str_eq (as_text (get "subnet" m)) s.subnet
    then updated (object (updated_entry s m) ∷ es)
    else other_subnet
update_entry s _ es = crashed

unfoldable pub update_entries : ℤ → SubnetSpec → List Json → Update
unfolding subnet_id update_entry
update_entries id s [] = missing
update_entries id s (e ∷ es) =
    let rest = update_entries id s es in
    if eq_int (subnet_id e) id then update_entry s e es else after_entry e rest

-- The configuration after the loop of `UpdateSubnet`, whose first argument is the one before it and
-- whose second has the interface of the subnet as well
unfoldable pub finish_update : Fields → Fields → Update → Fields × Bool
finish_update d d' (updated es) = (set "subnet4" (list (of_elements es)) d', true)
finish_update d d' missing = (d, false)
finish_update d d' other_subnet = (d, false)
finish_update d d' crashed = (d, false)

-- `UpdateSubnet`: the configuration that is left, and whether it succeeds
unfoldable pub update_subnet : Fields → ℤ → SubnetSpec → Fields × Bool
update_subnet dhcp4 id s =
    let d = ensure_defaults dhcp4 in
    let d' = if str_eq s.interface "" then d else ensure_interface d s.interface in
    if not (validate s)
    then (dhcp4, false)
    else finish_update d d' (update_entries id s (subnet_slice d))

-- `DeleteSubnet`
unfoldable pub delete_subnet : Fields → ℤ → Fields × Bool
unfolding subnet_id
delete_subnet dhcp4 id =
    let subnets = subnet_slice dhcp4 in
    if any (λ e. eq_int (subnet_id e) id) subnets
    then (
      set "subnet4" (list (of_elements (keep (λ e. not (eq_int (subnet_id e) id)) subnets))) dhcp4,
      true,
    )
    else (dhcp4, false)
