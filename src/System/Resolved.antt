-- ===== src/System/Resolved.antt =====
-- cmd/saguaro/systemprofile.go, gateway.go, firewall_objects.go, deviceaccess.go and firewall_block.go:
-- the aliases that the stored rules name, over sequences of requests.
use sgsu.Prelude.{
  Bool, true, false, ◌||◌, Option, none, some, String, List, [], ◌∷◌, str_eq, any, all, map, ◌≡◌,
  ◌⊎◌, refl, arith, Bool-cases, eq_iff, inl, inr, ap, sym, ◌∙◌, All,
}
use sgsu.Prelude.Text.{trim_space}
use sgsu.Firewall.{Config, Alias, Rule, is_ip4}
use sgsu.Firewall.Objects.{validate_objects, listed, Resolves, resolves}
use sgsu.Gateway.{GatewayApp, Around, get_gateway, add_event}
use sgsu.Gateway.Objects.{gateway_step, gateway_step-Keeps}
use sgsu.Gateway.Block.{
  Attached, Answers, blocklist_alias, blocked, block_stored, api_firewall_block_ip, unblocked,
  unblock_stored, api_firewall_unblock_ip,
}
use sgsu.Gateway.Blocked.{store_and_load_gateway, config_stored}
use sgsu.System.{
  SystemApp, SystemCall, put_profile, firewall_call, block_ip, unblock_ip, in_mode, set_profile,
  api_system_profile_put, system_step, system_run,
}
use sgsu.System.Names.{
  names, known, rule_known, named, all_mono, test, named-blocked, named-unblocked,
}

or_false : (b : Bool) → (b || false) ≡ b
or_false b = ground arith

or_true : (b : Bool) → (b || true) ≡ true
or_true b = ground arith

or_assoc : (a b c : Bool) → (a || (b || c)) ≡ ((a || b) || c)
or_assoc a b c = ground arith

module _ (lost : Bool) (o : Around) (a : GatewayApp) (old : named lost (get_gateway a) ≡ true) where
  after_block :
      (x : Attached) (w : Answers) (ip : String) (stored : Option Config)
      → a.gateway ≡ stored
      → named lost (get_gateway (block_stored o x w ip stored a).0) ≡ true
  unfolding block_stored add_event
  after_block x w ip none is = old
  after_block x w ip (some c) is = elim (Bool-cases (str_eq c.client_network "")) [
    | inl refused ↦ rw (refused, block_stored) old
    | inr known ↦
        rw (known, block_stored)
          (ap (named lost) (
              config_stored _ (blocked ip c) (
                store_and_load_gateway o x w (blocked ip c)
                  (add_event o "firewall-block-ip" "nftables" "failed" "security")
                  (add_event o "firewall-block-ip" "nftables" "success" "security") a (λ s. refl)
                  (λ s. refl)))
            ∙ named-blocked lost ip c (ap (named lost) (sym (config_stored a c is)) ∙ old))
  ]

  after_block_ip :
      (x : Attached) (w : Answers) (ip : String)
      → named lost (get_gateway (api_firewall_block_ip o x w ip a).0) ≡ true
  unfolding api_firewall_block_ip
  after_block_ip x w ip = elim (Bool-cases (is_ip4 (trim_space ip))) [
    | inl good ↦ rw (good, api_firewall_block_ip) (after_block x w (trim_space ip) a.gateway refl)
    | inr bad ↦ rw (bad, api_firewall_block_ip) old
  ]

  weakened : (c : Config) → named lost c ≡ true → named true c ≡ true
  weakened c h = all_mono _ (rule_known true (names c)) c.rules (λ r e. ground arith) h

  after_unblock :
      (x : Attached) (w : Answers) (ip : String) (stored : Option Config)
      → a.gateway ≡ stored
      → named true (get_gateway (unblock_stored o x w ip stored a).0) ≡ true
  unfolding unblock_stored add_event
  after_unblock x w ip none is = weakened (get_gateway a) old
  after_unblock x w ip (some c) is =
      ap (named true) (
        config_stored _ (unblocked ip c) (
          store_and_load_gateway o x w (unblocked ip c) (λ s. s)
            (add_event o "firewall-unblock-ip" "nftables" "success" "security") a (λ s. refl)
            (λ s. refl)))
      ∙ named-unblocked lost ip c (ap (named lost) (sym (config_stored a c is)) ∙ old)

-- Whether a request takes a block back
abbrev pub is_unblock : Around × SystemCall → Bool
is_unblock (o, unblock_ip x w ip) = true
is_unblock (o, put_profile p) = false
is_unblock (o, firewall_call call) = false
is_unblock (o, block_ip x w ip) = false

same_firewall :
    (o : Around) (p : String) (s : SystemApp)
    → get_gateway (api_system_profile_put o p s).0.firewall ≡ get_gateway s.firewall
unfolding api_system_profile_put set_profile add_event get_gateway
same_firewall o p s = ground arith

system_step-named :
    (lost : Bool) (o : Around) (call : SystemCall) (s : SystemApp)
    → named lost (get_gateway s.firewall) ≡ true
    → named (lost || is_unblock (o, call)) (get_gateway (system_step o call s).firewall) ≡ true
unfolding system_step api_firewall_unblock_ip
system_step-named lost o (put_profile p) s h =
    ap (λ b. named b (get_gateway (api_system_profile_put o p s).0.firewall)) (or_false lost)
    ∙ ap (named lost) (same_firewall o p s)
    ∙ h
system_step-named lost o (firewall_call call) s h =
    ap (λ b. named b (get_gateway (gateway_step (in_mode o s) call s.firewall).0)) (or_false lost)
    ∙ gateway_step-Keeps (test lost) (in_mode o s) s.firewall h call
system_step-named lost o (block_ip x w ip) s h =
    ap (λ b. named b (get_gateway (api_firewall_block_ip (in_mode o s) x w ip s.firewall).0))
      (or_false lost)
    ∙ after_block_ip lost (in_mode o s) s.firewall h x w ip
system_step-named lost o (unblock_ip x w ip) s h =
    ap (λ b. named b (get_gateway (api_firewall_unblock_ip (in_mode o s) x w ip s.firewall).0))
      (or_true lost)
    ∙ after_unblock lost (in_mode o s) s.firewall h x w (trim_space ip) s.firewall.gateway refl

system_run-named :
    (lost : Bool) (calls : List (Around × SystemCall)) (s : SystemApp)
    → named lost (get_gateway s.firewall) ≡ true
    → named (lost || any is_unblock calls) (get_gateway (system_run calls s).firewall) ≡ true
unfolding system_run
system_run-named lost [] s h = ap (λ b. named b (get_gateway s.firewall)) (or_false lost) ∙ h
system_run-named lost ((o, call) ∷ more) s h =
    ap (λ b. named b (get_gateway (system_run more (system_step o call s)).firewall))
      (or_assoc lost (is_unblock (o, call)) (any is_unblock more))
    ∙ system_run-named (lost || is_unblock (o, call)) more (system_step o call s)
        (system_step-named lost o call s h)

-- A name that the tester of rules finds among the aliases, or that of the list of blocked addresses
-- if it may be lost
abbrev pub ResolvesUnless : Bool → List Alias → String → Type 0
ResolvesUnless lost aliases name =
    Resolves aliases name ⊎ ((lost ≡ true) × (name ≡ blocklist_alias))

known-ResolvesUnless :
    (lost : Bool) (aliases : List Alias) (n : String)
    → known lost (map (λ al. al.name) aliases) n ≡ true
    → ResolvesUnless lost aliases n
known-ResolvesUnless lost aliases n h =
    elim (Bool-cases (str_eq n "" || listed n (map (λ al. al.name) aliases))) [
      | inl found ↦ inl (resolves aliases n found)
      | inr missing ↦ inr (ground arith, ground (arith, eq_iff n blocklist_alias))
    ]

all_resolve :
    (lost : Bool) (aliases : List Alias) (rs : List Rule)
    → all (rule_known lost (map (λ al. al.name) aliases)) rs ≡ true
    → All
        (λ r. ResolvesUnless lost aliases r.src_alias × ResolvesUnless lost aliases r.dst_alias)
        rs
all_resolve lost aliases [] h = tt
all_resolve lost aliases (r ∷ rs) h = (
  (
    known-ResolvesUnless lost aliases r.src_alias (ground arith),
    known-ResolvesUnless lost aliases r.dst_alias (ground arith),
  ),
  all_resolve lost aliases rs (ground arith),
)

-- Over any sequence of requests that save the form of the gateway, the aliases, the rules, the zones,
-- the device access or the mode, or that block an address or take a block back, each with any outcome:
-- if the stored objects pass their validation at the start, then after the sequence every alias that a
-- stored rule names is one that the tester of rules finds, under that name. The one exception is the
-- name "blocklist", and only where the sequence takes a block back.
pub system_run-Resolves :
    (calls : List (Around × SystemCall)) (s : SystemApp)
    → validate_objects (get_gateway s.firewall) ≡ true
    → All
        (λ r.
          ResolvesUnless
            (any is_unblock calls)
            (get_gateway (system_run calls s).firewall).aliases
            r.src_alias
          × ResolvesUnless
              (any is_unblock calls)
              (get_gateway (system_run calls s).firewall).aliases
              r.dst_alias)
        (get_gateway (system_run calls s).firewall).rules
system_run-Resolves calls s h =
    all_resolve (any is_unblock calls) (get_gateway (system_run calls s).firewall).aliases
      (get_gateway (system_run calls s).firewall).rules
      (system_run-named false calls s ((test false).valid_passes (get_gateway s.firewall) h))
