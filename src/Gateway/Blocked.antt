-- ===== src/Gateway/Blocked.antt =====
-- cmd/saguaro/firewall_block.go: what a block does to the traffic, and that it can be taken back.
use sgsu.Prelude.{
  Bool, true, false, not, Option, none, some, String, [], ◌∷◌, str_eq, if◌then◌else◌, ◌==◌, ◌≡◌,
  refl, ap, sym, ◌∙◌, arith, Bool-cases, Option-cases, inl, inr,
}
use sgsu.Prelude.Text.{trim_space}
use sgsu.Prelude.Net.{parse_ip, to4}
use sgsu.Prelude.Trim.{trim_space_idem}
use sgsu.App.{Status}
use sgsu.Firewall.{Config, is_ip4, is_some}
use sgsu.Firewall.Evaluate.{Packet, evaluate_forward, first_match, rule_matches}
use sgsu.Firewall.Objects.{aliases_ok, validate_objects}
use sgsu.Firewall.Reach.{validate, base_ok}
use sgsu.Firewall.Generate.{generate}
use sgsu.Gateway.{GatewayApp, Around, empty_config, get_gateway, set_gateway, add_event}
use sgsu.Gateway.Block.{
  Attached, Answers, firewall_config, load, apply_and_confirm, block_rule_name, block_rule,
  has_alias, has_rule, blocked, store_and_load, block_stored, api_firewall_block_ip, unblocked,
  unblock_stored, api_firewall_unblock_ip,
}
use sgsu.Gateway.Unblock.{unblocked-blocked}
use sgsu.Gateway.BlockLists.{hosts, blocked-Lists, block_rule_matches, first_match-block_rule}

-- A change is stored whatever comes of it.
pub store_and_load_gateway :
    (o : Around) (x : Attached) (w : Answers) (next : Config)
    (failed done : GatewayApp → GatewayApp) (a : GatewayApp)
    → ((s : GatewayApp) → (failed s).gateway ≡ s.gateway)
    → ((s : GatewayApp) → (done s).gateway ≡ s.gateway)
    → (store_and_load o x w next failed done a).0.gateway ≡ some next
unfolding store_and_load set_gateway
store_and_load_gateway o x w next failed done a hf hd = elim (Bool-cases o.saves) [
  | inr off ↦ rw (off) refl
  | inl on ↦ elim (Option-cases (apply_and_confirm x w (some next))) [
    | inl failing ↦ rw (on, failing) (hf (set_gateway next a))
    | inr (text, loaded) ↦ rw (on, loaded) (hd (set_gateway next a))
  ]
]

-- What an answer 200 says of a step that is refused otherwise
accepted_step :
    (b : Bool) (x y : GatewayApp × Status)
    → (x.1 == 200) ≡ false
    → (if b then x else y).1 ≡ 200
    → (b ≡ false) × ((if b then x else y) ≡ y)
accepted_step true x y refused h = let no : ⊥ = ground arith in absurd no
accepted_step false x y refused h = (refl, refl)

when_false : (b : Bool) (t : Option String) → b ≡ false → (if b then t else none) ≡ none
when_false b t h = rw (h) refl

no_text : (d : Config) → validate d ≡ false → generate d ≡ none
unfolding generate
no_text d wrong = when_false (validate d) _ wrong

apply_and_confirm-validate :
    (x : Attached) (w : Answers) (c : Config) (text : String)
    → apply_and_confirm x w (some c) ≡ some text
    → validate (firewall_config x c) ≡ true
unfolding apply_and_confirm load
apply_and_confirm-validate x w c text h = elim (Bool-cases (validate (firewall_config x c))) [
  | inl valid ↦ valid
  | inr wrong ↦
      let nothing = ap (load w) (no_text (firewall_config x c) wrong) in
      let no : none ≡ some text = sym nothing ∙ h in let absent : ⊥ = ground arith in absurd absent
]

-- A change that is answered 200 has been stored, as a configuration that is valid.
store_and_load-done :
    (o : Around) (x : Attached) (w : Answers) (next : Config)
    (failed done : GatewayApp → GatewayApp) (a : GatewayApp)
    → (store_and_load o x w next failed done a).1 ≡ 200
    → (store_and_load o x w next failed done a ≡ (done (set_gateway next a), 200))
      × (validate (firewall_config x next) ≡ true)
unfolding store_and_load
store_and_load-done o x w next failed done a h = elim (Bool-cases o.saves) [
  | inr off ↦ let no : ⊥ = ground arith in absurd no
  | inl on ↦ elim (Option-cases (apply_and_confirm x w (some next))) [
    | inl failing ↦
        let refusal : store_and_load o x w next failed done a ≡ (failed (set_gateway next a), 502) =
          rw (on, failing) refl in
        let status : (store_and_load o x w next failed done a).1 ≡ 502 = ap (λ r. r.1) refusal in
        let no : ⊥ = omega arith in absurd no
    | inr (text, loaded) ↦ (rw (on, loaded) refl, apply_and_confirm-validate x w next text loaded)
  ]
]

true_of_not : (b : Bool) → not b ≡ false → b ≡ true
true_of_not true h = refl
true_of_not false h = sym h

-- The stored configuration after a block that is answered 200
stored_block :
    (o : Around) (x : Attached) (w : Answers) (ip : String) (a : GatewayApp) (c : Config)
    → a.gateway ≡ some c
    → (api_firewall_block_ip o x w ip a).1 ≡ 200
    → ((api_firewall_block_ip o x w ip a).0.gateway ≡ some (blocked (trim_space ip) c))
      × (is_ip4 (trim_space ip) ≡ true)
      × (validate (firewall_config x (blocked (trim_space ip) c)) ≡ true)
unfolding api_firewall_block_ip block_stored set_gateway add_event
stored_block o x w ip a c is h =
    let v = trim_space ip in
    let failed : GatewayApp → GatewayApp =
      add_event o "firewall-block-ip" "nftables" "failed" "security" in
    let done : GatewayApp → GatewayApp =
      add_event o "firewall-block-ip" "nftables" "success" "security" in
    let loaded = store_and_load o x w (blocked v c) failed done a in
    let known : block_stored o x w v a.gateway a ≡ block_stored o x w v (some c) a =
      ap (λ g. block_stored o x w v g a) is in
    let first = accepted_step (not (is_ip4 v)) (a, 400) (block_stored o x w v a.gateway a) refl h in
    let second =
      accepted_step (str_eq c.client_network "") (a, 409) loaded refl
        (ap (λ r. r.1) (sym (first.1 ∙ known)) ∙ h) in
    let whole = first.1 ∙ known ∙ second.1 in
    let last =
      store_and_load-done o x w (blocked v c) failed done a (ap (λ r. r.1) (sym whole) ∙ h) in
    (ap (λ r. r.0.gateway) (whole ∙ last.0), true_of_not (is_ip4 v) first.0, last.1)

valid_aliases :
    (x : Attached) (c : Config)
    → validate (firewall_config x c) ≡ true
    → aliases_ok [] c.aliases ≡ true
unfolding validate base_ok validate_objects firewall_config
valid_aliases x c h = ground arith

pub config_stored : (a : GatewayApp) (c : Config) → a.gateway ≡ some c → get_gateway a ≡ c
unfolding get_gateway
config_stored a c is = ap (λ g. elim g [ none ↦ empty_config | some d ↦ d ]) is

first_is_block :
    (ip : String) (c : Config) (p : Packet)
    → has_rule c.rules ≡ false
    → rule_matches (blocked ip c) p block_rule ≡ true
    → (evaluate_forward (blocked ip c) p
        ≡ record { matched = true; rule_name = block_rule_name; rule_index = 1; action = "drop" })
unfolding evaluate_forward blocked
first_is_block ip c p no_rule hit =
    let shape : (blocked ip c).rules ≡ block_rule ∷ c.rules = rw (no_rule) refl in
    ap (first_match (blocked ip c) p 0) shape ∙ first_match-block_rule (blocked ip c) p c.rules hit

-- After a block that is answered 200, over a configuration with no rule of the block's name and
-- whose alias of its name, if there is one, holds addresses: the tester of rules answers every packet
-- whose source is the blocked address with "drop", by the block's rule, which comes first.
pub block_drops :
    (o : Around) (x : Attached) (w : Answers) (ip : String) (a : GatewayApp) (c : Config)
    (p : Packet)
    → a.gateway ≡ some c
    → has_rule c.rules ≡ false
    → hosts c.aliases ≡ true
    → parse_ip (trim_space p.src) ≡ parse_ip (trim_space ip)
    → (api_firewall_block_ip o x w ip a).1 ≡ 200
    → (evaluate_forward (get_gateway (api_firewall_block_ip o x w ip a).0) p
        ≡ record { matched = true; rule_name = block_rule_name; rule_index = 1; action = "drop" })
block_drops o x w ip a c p is no_rule kinds from h =
    let v = trim_space ip in
    let stored = stored_block o x w ip a c is h in
    let valid : aliases_ok [] (blocked v c).aliases ≡ true =
      valid_aliases x (blocked v c) stored.2 in
    elim (Option-cases (parse_ip v)) [
      | inl unread ↦
          let lost : false ≡ true = ap (λ r. is_some (to4 r)) (sym unread) ∙ stored.1 in
          let no : ⊥ = ground arith in absurd no
      | inr (src, read) ↦
          let there = blocked-Lists v c kinds valid in
          let hit =
            block_rule_matches v src (blocked v c) p (trim_space_idem ip) read (from ∙ read)
              there in
          ap (λ d. evaluate_forward d p) (config_stored _ (blocked v c) stored.0)
          ∙ first_is_block v c p no_rule hit
    ]

-- Taking back a block that was answered 200 leaves the configuration that was stored before it, if
-- that had neither an alias nor a rule of the block's names, whatever the outcome of the second
-- request.
pub unblock-block :
    (o o' : Around) (x x' : Attached) (w w' : Answers) (ip : String) (a : GatewayApp) (c : Config)
    → a.gateway ≡ some c
    → has_alias c.aliases ≡ false
    → has_rule c.rules ≡ false
    → (api_firewall_block_ip o x w ip a).1 ≡ 200
    → (api_firewall_unblock_ip o' x' w' ip (api_firewall_block_ip o x w ip a).0).0.gateway ≡ some c
unfolding api_firewall_unblock_ip unblock_stored add_event
unblock-block o o' x x' w w' ip a c is no_old no_rule h =
    let v = trim_space ip in
    let after = (api_firewall_block_ip o x w ip a).0 in
    let stored = stored_block o x w ip a c is h in
    let done : GatewayApp → GatewayApp =
      add_event o' "firewall-unblock-ip" "nftables" "success" "security" in
    ap (λ g. (unblock_stored o' x' w' v g after).0.gateway) stored.0
    ∙ store_and_load_gateway o' x' w' (unblocked v (blocked v c)) (λ s. s) done after (λ s. refl)
        (λ s. refl)
    ∙ ap some (unblocked-blocked v c no_old no_rule)
