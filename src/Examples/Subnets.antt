-- ===== src/Examples/Subnets.antt =====
-- The theorems on subnets at concrete configurations.
use sgsu.Prelude.{sym, Bool, ◌≡◌, refl, true, false, Option, some, [], ◌∷◌, arith, if◌then◌else◌}
use sgsu.Prelude.Integers.{ℤ, pos}
use sgsu.Prelude.Net.{parse_ip, parse_cidr, contains}
use sgsu.Prelude.Text.{trim_space}
use sgsu.Prelude.Json.{
  Json, object, string, num, list, Fields, transmitted_fields, empty, field, of_elements, get, set,
}
use sgsu.Kea.{
  SubnetSpec, add_subnet, update_subnet, delete_subnet, subnet_slice, subnet_id, max_id, new_entry,
  validate, conflicts, cidrs_overlap, ensure_defaults, pool_ok, router_ok, names_ok, ip4_to_int,
}
use sgsu.Kea.Ids.{delete_subnet-add_subnet}
use sgsu.Kea.Overlap.{NoOverlap, subnets_stay_apart}
use sgsu.Kea.Transaction.{Server, ServerLaws}

abbrev office : SubnetSpec
office = record {
  subnet = "10.1.0.0/16";
  pool_start = "10.1.0.10";
  pool_end = "10.1.0.99";
  router = "10.1.0.1";
  domain = "";
  dns_servers = [];
  interface = "";
}

abbrev lab : Json
lab = object (field "id" (num (pos 3)) (field "subnet" (string "10.2.0.0/16") empty))

abbrev dhcp : Fields
dhcp = field "subnet4" (list (of_elements (lab ∷ []))) empty

added : (add_subnet dhcp office).1 ≡ some (pos 4)
unfolding add_subnet validate parse_cidr trim_space pool_ok ip4_to_int parse_ip contains router_ok
    names_ok get ensure_defaults set conflicts cidrs_overlap max_id
added = refl

-- A rounding that is exact, as that of float64 is up to 2^53
abbrev exactly : ℤ → ℤ
exactly n = n

delete_subnet-add_subnet_example :
    ((delete_subnet (transmitted_fields exactly (add_subnet dhcp office).0) (pos 4)).1 ≡ true)
    × (subnet_slice
          (delete_subnet (transmitted_fields exactly (add_subnet dhcp office).0) (pos 4)).0
        ≡ subnet_slice dhcp)
unfolding max_id subnet_id get
delete_subnet-add_subnet_example =
    delete_subnet-add_subnet exactly dhcp office (pos 4) (λ n h. refl) refl added (omega arith)

-- On the map that `AddSubnet` has left, before it becomes JSON, the new id is not found.
not_yet : (delete_subnet (add_subnet dhcp office).0 (pos 4)).1 ≡ false
unfolding delete_subnet subnet_id get add_subnet validate parse_cidr trim_space pool_ok ip4_to_int
    parse_ip contains router_ok names_ok ensure_defaults set conflicts cidrs_overlap max_id
    new_entry
not_yet = refl

subnets_stay_apart_example :
    NoOverlap (add_subnet dhcp office).0
    × NoOverlap (update_subnet dhcp (pos 3) office).0
    × NoOverlap (delete_subnet dhcp (pos 3)).0
unfolding get
subnets_stay_apart_example = subnets_stay_apart dhcp office (pos 3) (refl, tt)

-- A server that takes every configuration but reports a failure after the first change
abbrev flaky : Server
flaky = record {
  State = Json × Bool;
  config_get = λ s. (s, some s.0);
  config_test = λ s j. (s, true);
  config_set = λ s j. ((j, true), true);
  status_get = λ s. (s, if s.1 then false else true);
  config_write = λ s. (s, true);
}

same : (i j : Json) → Path (Option Json) (some i) (some j) → i ≡ j
same i j e = cc

flaky_laws : ServerLaws flaky
flaky_laws = record {
  running = λ s. s.0;
  get_running = λ s. refl;
  get_answer = λ s j e. sym (same s.0 j e);
  test_running = λ s j. refl;
  set_running = λ s j. refl;
  status_running = λ s. refl;
  write_running = λ s. refl;
}

abbrev running_dhcp : Json
running_dhcp = object (field "Dhcp4" (object dhcp) empty)
