-- ===== src/System/Mode.antt =====
-- cmd/saguaro/systemprofile.go and gateway.go: the gateway mode and the deployment mode over sequences
-- of requests.
use sgsu.Prelude.{
  Bool, true, false, not, ◌&&◌, Option, none, some, String, List, [], ◌∷◌, str_eq, if◌then◌else◌,
  ◌==◌, ◌≡◌, ◌⊎◌, refl, ap, sym, ◌∙◌, arith, Bool-cases, inl, inr, eq_iff, all,
}
use sgsu.Prelude.Text.{trim_space}
use sgsu.App.{Status}
use sgsu.Firewall.{Config, Zone, ServiceAcl, is_ip4}
use sgsu.Firewall.Objects.{validate_objects, listed}
use sgsu.Firewall.Reach.{validate}
use sgsu.Gateway.{
  GatewayApp, Around, get_gateway, add_event, store, store_objects, merge_stored, api_gateway_put,
  api_firewall_aliases_put, api_firewall_rules_put, api_firewall_zones_put, refresh_dns,
  access_zones, with_matrix, put_matrix, api_device_access_put,
}
use sgsu.Gateway.Objects.{
  GatewayCall, put_gateway, put_aliases, put_rules, put_zones, put_access, gateway_step,
  stored_config,
}
use sgsu.Gateway.Block.{
  Attached, Answers, blocked, block_stored, left_empty, store_and_load, api_firewall_block_ip,
  unblocked, unblock_stored,
}
use sgsu.Gateway.Blocked.{store_and_load_gateway, config_stored}
use sgsu.System.{
  SystemApp, valid_profile, get_profile, set_profile, api_system_profile_put, SystemCall,
  put_profile, firewall_call, block_ip, unblock_ip, in_mode, system_step, system_run,
}

-- Whether the gateway mode is on
abbrev pub is_on : GatewayApp → Bool
is_on a = (get_gateway a).gateway_enabled

module _ (o : Around) (a : GatewayApp) where
  -- The gateway mode is on after a step only if it was on before or the mode allows it.
  Earned : GatewayApp → Type 0
  Earned b = is_on b ≡ true → (is_on a ≡ true) ⊎ (str_eq o.profile "gateway" ≡ true)

  if_Earned :
      (b : Bool) (x y : GatewayApp × Status)
      → Earned x.0
      → (b ≡ false → Earned y.0)
      → Earned (if b then x else y).0
  if_Earned true x y h k = h
  if_Earned false x y h k = k refl

  unchanged-Earned : Earned a
  unfolding Earned
  unchanged-Earned on = inl on

  config-Earned :
      (b : GatewayApp) (c : Config) → get_gateway b ≡ c → c.gateway_enabled ≡ is_on a → Earned b
  unfolding Earned
  config-Earned b c is same on = inl (sym same ∙ ap (λ d. d.gateway_enabled) (sym is) ∙ on)

  store_objects-Earned :
      (c : Config) (action : String)
      → c.gateway_enabled ≡ is_on a
      → Earned (store_objects o c action a).0
  unfolding store_objects
  store_objects-Earned c action same =
      if_Earned (not (validate_objects c)) (a, 400) (store o c action "objects" "info" a)
        unchanged-Earned
        (λ ok. config-Earned _ c (stored_config o c action "objects" "info" a) same)

  refresh_dns-Earned : (b : GatewayApp) → Earned b → Earned (refresh_dns o b)
  unfolding refresh_dns add_event Earned get_gateway
  refresh_dns-Earned b h = elim (Bool-cases o.dns_applies) [
    | inl on ↦ rw (on) h
    | inr off ↦ rw (off) h
  ]

  zones-Earned : (zones : List Zone) → Earned (api_firewall_zones_put o zones a).0
  unfolding api_firewall_zones_put
  zones-Earned zones =
      let stored = store_objects o (record (get_gateway a) { zones = zones }) "firewall-zones" a in
      let kept =
        store_objects-Earned (record (get_gateway a) { zones = zones }) "firewall-zones" refl in
      if_Earned (stored.1 == 200) (refresh_dns o stored.0, 200) stored
        (refresh_dns-Earned stored.0 kept) (λ other. kept)

  matrix-Earned :
      (rows : List ServiceAcl) (admin : Option String) (stored : Option Config)
      → a.gateway ≡ stored
      → Earned (put_matrix o rows admin stored a).0
  unfolding put_matrix with_matrix
  matrix-Earned rows admin none is = unchanged-Earned
  matrix-Earned rows admin (some c) is =
      let next = with_matrix rows admin c in
      let same : c.gateway_enabled ≡ is_on a =
        sym (ap (λ d. d.gateway_enabled) (config_stored a c is)) in
      if_Earned (not (all (λ r. listed (trim_space r.zone) (access_zones o c)) rows)) (a, 400) _
        unchanged-Earned
        (λ known.
          if_Earned (not (validate next)) (a, 400)
            (store o next "device-access" "firewall" "security" a) unchanged-Earned
            (λ valid.
              config-Earned _ next (stored_config o next "device-access" "firewall" "security" a)
                same))

  merged_mode :
      (stored : Option Config) (new : Config)
      → (merge_stored stored new).gateway_enabled ≡ new.gateway_enabled
  unfolding merge_stored
  merged_mode none new = refl
  merged_mode (some cur) new = refl

  allowed-Earned :
      (new : Config)
      → (new.gateway_enabled && not (str_eq o.profile "gateway")) ≡ false
      → Earned (store o (merge_stored a.gateway new) "gateway-config" "firewall" "info" a).0
  unfolding Earned
  allowed-Earned new free on =
      let merged = merge_stored a.gateway new in
      let switched : new.gateway_enabled ≡ true =
        sym (merged_mode a.gateway new)
        ∙ sym (
            ap (λ d. d.gateway_enabled)
              (stored_config o merged "gateway-config" "firewall" "info" a))
        ∙ on in
      inr (ground arith)

  gateway-Earned : (new : Config) → Earned (api_gateway_put o new a).0
  unfolding api_gateway_put
  gateway-Earned new =
      let merged = merge_stored a.gateway new in
      let done = store o merged "gateway-config" "firewall" "info" a in
      let refused = new.gateway_enabled && not (str_eq o.profile "gateway") in
      if_Earned (not (validate new)) (a, 400) (if refused then (a, 409) else done) unchanged-Earned
        (λ valid. if_Earned refused (a, 409) done unchanged-Earned (allowed-Earned new))

  put_back :
      (x : Attached) (w : Answers) (next : Config) (failed done : GatewayApp → GatewayApp)
      → ((s : GatewayApp) → (failed s).gateway ≡ s.gateway)
      → ((s : GatewayApp) → (done s).gateway ≡ s.gateway)
      → next.gateway_enabled ≡ is_on a
      → Earned (store_and_load o x w next failed done a).0
  put_back x w next failed done hf hd same =
      config-Earned _ next
        (config_stored _ next (store_and_load_gateway o x w next failed done a hf hd)) same

  block_stored-Earned :
      (x : Attached) (w : Answers) (ip : String) (stored : Option Config)
      → a.gateway ≡ stored
      → Earned (block_stored o x w ip stored a).0
  unfolding block_stored blocked add_event
  block_stored-Earned x w ip none is = unchanged-Earned
  block_stored-Earned x w ip (some c) is =
      if_Earned (str_eq c.client_network "") (a, 409) _ unchanged-Earned
        (λ known.
          put_back x w (blocked ip c)
            (add_event o "firewall-block-ip" "nftables" "failed" "security")
            (add_event o "firewall-block-ip" "nftables" "success" "security") (λ s. refl)
            (λ s. refl) (sym (ap (λ d. d.gateway_enabled) (config_stored a c is))))

  block-Earned :
      (x : Attached) (w : Answers) (ip : String) → Earned (api_firewall_block_ip o x w ip a).0
  unfolding api_firewall_block_ip
  block-Earned x w ip =
      if_Earned (not (is_ip4 (trim_space ip))) (a, 400)
        (block_stored o x w (trim_space ip) a.gateway a) unchanged-Earned
        (λ known. block_stored-Earned x w (trim_space ip) a.gateway refl)

  same_mode : (ip : String) (c : Config) → (unblocked ip c).gateway_enabled ≡ c.gateway_enabled
  unfolding unblocked
  same_mode ip c = elim (Bool-cases (left_empty ip false c.aliases)) [
    | inl gone ↦ rw (gone) refl
    | inr left ↦ rw (left) refl
  ]

  unblock_stored-Earned :
      (x : Attached) (w : Answers) (ip : String) (stored : Option Config)
      → a.gateway ≡ stored
      → Earned (unblock_stored o x w ip stored a).0
  unfolding unblock_stored add_event
  unblock_stored-Earned x w ip none is = unchanged-Earned
  unblock_stored-Earned x w ip (some c) is =
      put_back x w (unblocked ip c) (λ s. s)
        (add_event o "firewall-unblock-ip" "nftables" "success" "security") (λ s. refl) (λ s. refl)
        (same_mode ip c ∙ sym (ap (λ d. d.gateway_enabled) (config_stored a c is)))

  step-Earned : (call : GatewayCall) → Earned (gateway_step o call a).0
  unfolding gateway_step api_firewall_aliases_put api_firewall_rules_put api_device_access_put
  step-Earned (put_gateway c) = gateway-Earned c
  step-Earned (put_aliases xs) =
      store_objects-Earned (record (get_gateway a) { aliases = xs }) "firewall-aliases" refl
  step-Earned (put_rules rs) =
      store_objects-Earned (record (get_gateway a) { rules = rs }) "firewall-rules" refl
  step-Earned (put_zones zs) = zones-Earned zs
  step-Earned (put_access rows admin) = matrix-Earned rows admin a.gateway refl

-- The mode "router" together with the gateway mode
abbrev pub contradicts : SystemApp → Bool
contradicts s = str_eq (get_profile s) "router" && is_on s.firewall

one_mode : (p : String) → str_eq p "gateway" ≡ true → str_eq p "router" ≡ false
one_mode p h =
    let word : p ≡ "gateway" = ground (arith, eq_iff p "gateway") in
    ap (λ q. str_eq q "router") word

step_kept :
    (o : Around) (s : SystemApp) (b : GatewayApp)
    → contradicts s ≡ false
    → Earned (in_mode o s) s.firewall b
    → contradicts (record s { firewall = b }) ≡ false
unfolding Earned get_profile
step_kept o s b h earned = elim (Bool-cases (is_on b)) [
  | inr off ↦ ground arith
  | inl on ↦ elim (earned on) [
    | inl before ↦ ground arith
    | inr gateway ↦ let other = one_mode (get_profile s) gateway in rw (other) refl
  ]
]

if_consistent :
    (b : Bool) (x y : SystemApp × Status)
    → contradicts x.0 ≡ false
    → (b ≡ false → contradicts y.0 ≡ false)
    → contradicts (if b then x else y).0 ≡ false
if_consistent true x y h k = h
if_consistent false x y h k = k refl

-- A mode that is stored is the mode.
stored_mode :
    (p : String) (s : SystemApp)
    → not (valid_profile p) ≡ false
    → (str_eq p "router" && is_on s.firewall) ≡ false
    → contradicts (record s { profile = p }) ≡ false
unfolding get_profile
stored_mode p s valid free = let known : valid_profile p ≡ true = ground arith in rw (known) free

profile_step :
    (o : Around) (p : String) (s : SystemApp)
    → contradicts s ≡ false
    → contradicts (api_system_profile_put o p s).0 ≡ false
unfolding api_system_profile_put set_profile add_event get_gateway
profile_step o p s h =
    if_consistent (not (valid_profile p)) (s, 400) _ h
      (λ valid.
        if_consistent (str_eq p "router" && is_on s.firewall) (s, 409) _ h
          (λ free.
            if_consistent (not o.saves) (set_profile p s, 500) _ (stored_mode p s valid free)
              (λ saved.
                stored_mode p
                  (record s {
                    firewall = add_event o "system-profile" p "success" "warning" s.firewall;
                  })
                  valid free)))

system_step-consistent :
    (o : Around) (call : SystemCall) (s : SystemApp)
    → contradicts s ≡ false
    → contradicts (system_step o call s) ≡ false
unfolding system_step
system_step-consistent o (put_profile p) s h = profile_step o p s h
system_step-consistent o (firewall_call call) s h =
    step_kept o s _ h (step-Earned (in_mode o s) s.firewall call)
system_step-consistent o (block_ip x w ip) s h =
    step_kept o s _ h (block-Earned (in_mode o s) s.firewall x w ip)
system_step-consistent o (unblock_ip x w ip) s h =
    step_kept o s _ h
      (unblock_stored-Earned (in_mode o s) s.firewall x w (trim_space ip) s.firewall.gateway refl)

-- Whatever requests for the mode and for the firewall come, with whatever outcome: if the mode is not
-- "router" while the gateway mode is on at the start, then it is not after the requests.
pub system_run-consistent :
    (calls : List (Around × SystemCall)) (s : SystemApp)
    → contradicts s ≡ false
    → contradicts (system_run calls s) ≡ false
unfolding system_run
system_run-consistent [] s h = h
system_run-consistent ((o, call) ∷ more) s h =
    system_run-consistent more (system_step o call s) (system_step-consistent o call s h)
