-- ===== src/Gateway/Objects.antt =====
-- cmd/saguaro/gateway.go, firewall_objects.go and deviceaccess.go: what each of the
-- requests leaves of the objects of the firewall.
use sgsu.Prelude.{
  Bool, true, false, not, ◌&&◌, Option, none, some, String, List, str_eq, ◌==◌, if◌then◌else◌, all,
  ◌≡◌, refl, arith, Bool-cases, inl, inr, ap, sym, ◌∙◌,
}
use sgsu.Prelude.Text.{trim_space}
use sgsu.App.{Status}
use sgsu.Firewall.{Config, Alias, Rule, Zone, ServiceAcl}
use sgsu.Firewall.Objects.{validate_objects, listed}
use sgsu.Firewall.Reach.{validate, base_ok}
use sgsu.Gateway.{
  GatewayApp, Around, empty_config, get_gateway, set_gateway, add_event, store, store_objects,
  merge_stored, api_gateway_put, api_firewall_aliases_put, api_firewall_rules_put,
  api_firewall_zones_put, refresh_dns, access_zones, with_matrix, put_matrix, api_device_access_put,
}

-- One request
pub data GatewayCall : Type 0 where
  put_gateway : Config → GatewayCall
  put_aliases : List Alias → GatewayCall
  put_rules : List Rule → GatewayCall
  put_zones : List Zone → GatewayCall
  put_access : List ServiceAcl → Option String → GatewayCall

unfoldable pub gateway_step : Around → GatewayCall → GatewayApp → GatewayApp × Status
unfolding api_gateway_put api_firewall_aliases_put api_firewall_rules_put api_firewall_zones_put
    api_device_access_put
gateway_step o (put_gateway c) a = api_gateway_put o c a
gateway_step o (put_aliases xs) a = api_firewall_aliases_put o xs a
gateway_step o (put_rules rs) a = api_firewall_rules_put o rs a
gateway_step o (put_zones zs) a = api_firewall_zones_put o zs a
gateway_step o (put_access rows admin) a = api_device_access_put o rows admin a

abbrev config_of : Option Config → Config
config_of none = empty_config
config_of (some c) = c

-- A test of configurations that those with valid objects pass, and that reads only the objects
pub record ObjectTest : Type 0 where
  pub passes : Config → Bool
  pub valid_passes : (c : Config) → validate_objects c ≡ true → passes c ≡ true
  pub same_objects :
      (c d : Config)
      → c.aliases ≡ d.aliases
      → c.zones ≡ d.zones
      → c.rules ≡ d.rules
      → passes d ≡ true
      → passes c ≡ true

validate-objects : (c : Config) → validate c ≡ true → validate_objects c ≡ true
unfolding validate base_ok
validate-objects c h = ground arith

module _ (t : ObjectTest) where
  open t use {passes, valid_passes, same_objects}

  abbrev Keeps : GatewayApp × Status → Type 0
  Keeps x = passes (get_gateway x.0) ≡ true

  if_Keeps :
      (b : Bool) (x y : GatewayApp × Status)
      → Keeps x
      → (b ≡ false → Keeps y)
      → Keeps (if b then x else y)
  if_Keeps true x y h k = h
  if_Keeps false x y h k = k refl

  store-Keeps :
      (o : Around) (c : Config) (action target severity : String) (a : GatewayApp)
      → passes c ≡ true
      → Keeps (store o c action target severity a)
  unfolding store set_gateway add_event get_gateway
  store-Keeps o c action target severity a h = elim (Bool-cases o.saves) [
    | inl on ↦ rw (on) h
    | inr off ↦ rw (off) h
  ]

  refresh_dns-passes :
      (o : Around) (a : GatewayApp)
      → passes (get_gateway a) ≡ true
      → passes (get_gateway (refresh_dns o a)) ≡ true
  unfolding refresh_dns add_event get_gateway
  refresh_dns-passes o a h = elim (Bool-cases o.dns_applies) [
    | inl on ↦ rw (on) h
    | inr off ↦ rw (off) h
  ]

module _ (t : ObjectTest) (o : Around) (a : GatewayApp)
    (old : t.passes (get_gateway a) ≡ true) where
  open t use {passes, valid_passes, same_objects}

  store_objects-Keeps : (c : Config) (action : String) → Keeps t (store_objects o c action a)
  unfolding store_objects
  store_objects-Keeps c action =
      if_Keeps t (not (validate_objects c)) (a, 400) (store o c action "objects" "info" a) old
        (λ ok. store-Keeps t o c action "objects" "info" a (valid_passes c (ground arith)))

  api_firewall_zones_put-Keeps : (zones : List Zone) → Keeps t (api_firewall_zones_put o zones a)
  unfolding api_firewall_zones_put
  api_firewall_zones_put-Keeps zones =
      let stored = store_objects o (record (get_gateway a) { zones = zones }) "firewall-zones" a in
      let kept = store_objects-Keeps (record (get_gateway a) { zones = zones }) "firewall-zones" in
      if_Keeps t (stored.1 == 200) (refresh_dns o stored.0, 200) stored
        (refresh_dns-passes t o stored.0 kept) (λ other. kept)

  stored-passes : (cur : Config) → a.gateway ≡ some cur → passes cur ≡ true
  unfolding get_gateway
  stored-passes cur is = ap (λ m. passes (config_of m)) (sym is) ∙ old

  merge_stored-passes :
      (stored : Option Config) (new : Config)
      → a.gateway ≡ stored
      → validate_objects new ≡ true
      → passes (merge_stored stored new) ≡ true
  unfolding merge_stored get_gateway
  merge_stored-passes none new is h = valid_passes new h
  merge_stored-passes (some cur) new is h =
      same_objects (merge_stored (some cur) new) cur refl refl refl (stored-passes cur is)

  put_matrix-Keeps :
      (rows : List ServiceAcl) (admin : Option String) (stored : Option Config)
      → a.gateway ≡ stored
      → Keeps t (put_matrix o rows admin stored a)
  unfolding put_matrix
  put_matrix-Keeps rows admin none is = old
  put_matrix-Keeps rows admin (some c) is =
      let next = with_matrix rows admin c in
      if_Keeps t (not (all (λ r. listed (trim_space r.zone) (access_zones o c)) rows)) (a, 400) _
        old
        (λ known.
          if_Keeps t (not (validate next)) (a, 400)
            (store o next "device-access" "firewall" "security" a) old
            (λ valid.
              store-Keeps t o next "device-access" "firewall" "security" a
                (valid_passes next (validate-objects next (ground arith)))))

  api_gateway_put-Keeps : (new : Config) → Keeps t (api_gateway_put o new a)
  unfolding api_gateway_put
  api_gateway_put-Keeps new =
      let merged = merge_stored a.gateway new in
      let done = store o merged "gateway-config" "firewall" "info" a in
      let refused = new.gateway_enabled && not (str_eq o.profile "gateway") in
      if_Keeps t (not (validate new)) (a, 400) (if refused then (a, 409) else done) old
        (λ valid.
          if_Keeps t refused (a, 409) done old
            (λ allowed.
              store-Keeps t o merged "gateway-config" "firewall" "info" a
                (merge_stored-passes a.gateway new refl (validate-objects new (ground arith)))))

  -- Whatever one of the requests does, a test of the objects that the stored ones pass, the objects
  -- stored after it pass too.
  pub gateway_step-Keeps :
      (call : GatewayCall) → passes (get_gateway (gateway_step o call a).0) ≡ true
  unfolding gateway_step api_firewall_aliases_put api_firewall_rules_put api_device_access_put
  gateway_step-Keeps (put_gateway c) = api_gateway_put-Keeps c
  gateway_step-Keeps (put_aliases xs) =
      store_objects-Keeps (record (get_gateway a) { aliases = xs }) "firewall-aliases"
  gateway_step-Keeps (put_rules rs) =
      store_objects-Keeps (record (get_gateway a) { rules = rs }) "firewall-rules"
  gateway_step-Keeps (put_zones zs) = api_firewall_zones_put-Keeps zs
  gateway_step-Keeps (put_access rows admin) = put_matrix-Keeps rows admin a.gateway refl

pub stored_config :
    (o : Around) (c : Config) (action target severity : String) (a : GatewayApp)
    → get_gateway (store o c action target severity a).0 ≡ c
unfolding store get_gateway set_gateway add_event
stored_config o c action target severity a = elim (Bool-cases o.saves) [
  | inl on ↦ rw (on) refl
  | inr off ↦ rw (off) refl
]
