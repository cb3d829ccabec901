-- ===== src/Examples/Networks.antt =====
-- The theorems on VPN peers, uplinks and reservations at concrete values.
use sgsu.Prelude.{
  map, take, ℕ, suc, ◌-◌, ◌≡◌, ◌<◌, refl, Bool, true, false, none, some, Option, String, List, [],
  ◌∷◌, str_eq, keep, arith,
}
use sgsu.Prelude.Integers.{pos}
use sgsu.Prelude.Net.{Ip, IpNet, v4, parse_ip, parse_cidr}
use sgsu.Prelude.Net.Texts.{ip_text}
use sgsu.Vpn.{
  VpnConfig, Peer, ok, panicked, host_count, taken, allocate_address, find_free, server_address,
  validate, settings_ok,
}
use sgsu.Vpn.Requests.{VpnApp, Outside, Settings, NewPeer, get_vpn}
use sgsu.Vpn.Addresses.{is_apart}
use sgsu.Vpn.Invariant.{VpnCall, apply_settings, add, delete, vpn_run, vpn_step, vpn_run-apart}
use sgsu.Vpn.Allocation.{allocate_address-enough}
use sgsu.MultiWan.{
  WanConfig, Uplink, default_route_args, default_route_args_lem, route_over, is_up, uplinks_ok,
  uplink_ok,
}
use sgsu.MultiWan
use sgsu.Firewall.{valid_iface}

abbrev laptop : Peer
laptop = record {
  name = "laptop";
  pub_key = "xTIBA5rboUvnH4htodjb6e697QjLERt1NAB4mZqp8Dg=";
  address = "10.8.0.2";
  full_tunnel = false;
  expires_at = 0;
}

abbrev remote_work : VpnConfig
remote_work = record {
  enabled = true;
  subnet = "10.8.0.0/29";
  listen_port = pos 51820;
  endpoint = "vpn.example.com:51820";
  dns = "10.8.0.1";
  split_networks = "10.1.0.0/16" ∷ [];
  server_pub = "";
  server_priv_enc = "";
  peers = laptop ∷ [];
}

abbrev work_net : IpNet
work_net = record { ip = v4 168296448; ones = 29 }

third_address : allocate_address remote_work ≡ ok "10.8.0.3"
unfolding allocate_address find_free ip_text parse_cidr
third_address = refl

allocate_address-enough_example : (a : String) × (allocate_address remote_work ≡ ok a)
unfolding parse_cidr
allocate_address-enough_example =
    allocate_address-enough remote_work work_net 168296448 refl refl (omega arith) (omega arith)

abbrev mapped_subnet : VpnConfig
mapped_subnet = record remote_work { subnet = "::ffff:10.8.0.0/24"; peers = [] }

mapped_subnet_panics : (validate mapped_subnet ≡ true) × (server_address mapped_subnet ≡ panicked)
unfolding validate settings_ok server_address parse_cidr sgsu.Prelude.Net.cidr_ip
    sgsu.Prelude.Text.trim_space parse_ip
mapped_subnet_panics = (refl, refl)

abbrev fibre : Uplink
fibre = record {
  name = "fibre";
  interface = "enp1s0";
  gateway = "198.51.100.1";
  weight = pos 3;
  health_check = "";
}

abbrev mobile : Uplink
mobile = record fibre {
  name = "mobile";
  interface = "wwan0";
  gateway = "203.0.113.1";
  weight = pos 1;
}

abbrev two_uplinks : WanConfig
two_uplinks = record { enabled = true; mode = "failover"; uplinks = fibre ∷ mobile ∷ [] }

abbrev fibre_down : Option (String → Bool)
fibre_down = some (λ name. str_eq name "mobile")

default_route_args_lem_example :
    default_route_args two_uplinks fibre_down
    ≡ route_over (str_eq two_uplinks.mode "failover") (keep (is_up fibre_down) two_uplinks.uplinks)
unfolding MultiWan.validate uplinks_ok uplink_ok valid_iface parse_ip
default_route_args_lem_example = default_route_args_lem two_uplinks fibre_down refl

abbrev new_appliance : VpnApp
new_appliance = record { vpn = none; audit = [] }

abbrev works : Outside
works = record {
  runs = λ action. true;
  stages = true;
  saves = true;
  has_key = true;
  keypair = some (laptop.pub_key, laptop.pub_key);
  seal = λ s. some s;
  unseal = λ s. some s;
  client_network = some "10.1.0.0/16";
  to_lower = λ s. s;
  now = 1700000000000000000;
  actor = "admin";
  remote_ip = "10.1.0.7";
}

abbrev enable_vpn : Settings
enable_vpn = record {
  enabled = true;
  subnet = "10.8.0.0/29";
  listen_port = pos 0;
  endpoint = "vpn.example.com:51820";
  dns = "";
  split_networks = [];
}

abbrev phone : NewPeer
phone = record { name = "phone"; full_tunnel = true; expire_days = pos 30 }

abbrev three_calls : List (Outside × VpnCall)
three_calls = (works, apply_settings enable_vpn) ∷ (works, add phone) ∷ (works, delete "phone") ∷ []

vpn_run-apart_example : is_apart (get_vpn (vpn_run three_calls new_appliance)) ≡ true
unfolding get_vpn parse_cidr
vpn_run-apart_example = vpn_run-apart three_calls new_appliance refl

phone_address :
    map (λ p. p.address) (get_vpn (vpn_run (take 2 three_calls) new_appliance)).peers
    ≡ "10.8.0.2" ∷ []
unfolding get_vpn vpn_run vpn_step sgsu.Prelude.Net.cidr_ip sgsu.Prelude.Text.trim_space parse_cidr
    sgsu.Vpn.valid_peer_name parse_ip sgsu.Prelude.Net.contains
phone_address = refl
