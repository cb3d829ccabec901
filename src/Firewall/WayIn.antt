-- ===== src/Firewall/WayIn.antt =====
-- internal/adapters/nftgen/nftgen.go: the way to the appliance that a validated configuration leaves
-- open in the generated chain `input`.
use sgsu.Prelude.{
  true, false, not, ◌&&◌, ◌||◌, some, String, List, [], ◌∷◌, str_eq, ◌==◌, any, ◌≡◌, ◌≢◌, inl, inr,
  refl, arith, Bool-cases, eq_iff, eq_refl,
}
use sgsu.Prelude.Text.{trim_space}
use sgsu.Firewall.{Config, ServiceAcl, acl_iface, service_acl_rows}
use sgsu.Firewall.Nft.{first_hit}
use sgsu.Firewall.Chains.{is_empty, input_chain}
use sgsu.Firewall.Reach.{validate, gateway_ok, management_reachable, opens, trim_empty}
use sgsu.Firewall.Management.{
  Attempt, attempt_holds, admits, row_admits, side_admits, input_chain-admits,
}

-- A connection to SSH or HTTPS that the configuration lets in
abbrev IsLetIn : Config → Attempt → Type 0
IsLetIn c a = ((a.port == 22 || a.port == 443) ≡ true) × (admits c a ≡ true)

by_row :
    (c : Config) (rows : List ServiceAcl)
    → any opens rows ≡ true
    → (a : Attempt) × ((a.port == 22 || a.port == 443) ≡ true) × (any (row_admits c a) rows ≡ true)
by_row c [] h = cc
by_row c (r ∷ rows) h = elim (Bool-cases (opens r)) [
  | inl opened ↦ elim (Bool-cases r.https) [
    | inl web ↦
        let a : Attempt = record { iface = acl_iface c r; from_admin = false; port = 443 } in
        (a, refl, ground (arith, eq_refl (acl_iface c r)))
    | inr shell ↦
        let a : Attempt = record { iface = acl_iface c r; from_admin = false; port = 22 } in
        (a, refl, ground (arith, eq_refl (acl_iface c r)))
  ]
  | inr shut ↦ let (a, port, hit) = by_row c rows (ground arith) in (a, port, ground arith)
]

by_admin : (c : Config) → c.admin_network ≢ "" → (a : Attempt) × IsLetIn c a
by_admin c there = (
  record { iface = ""; from_admin = true; port = 22 },
  (refl, ground (arith, eq_iff c.admin_network "")),
)

by_side :
    (c : Config) (iface : String)
    → (is_empty (service_acl_rows c c.service_acls) ≡ true)
    → (side_admits c.mgmt_on_lan c.lan_interface
          (record { iface = iface; from_admin = false; port = 22 })
        || side_admits c.mgmt_on_wan c.wan_interface
            (record { iface = iface; from_admin = false; port = 22 }))
      ≡ true
    → (a : Attempt) × IsLetIn c a
by_side c iface unlisted side =
    (record { iface = iface; from_admin = false; port = 22 }, (refl, ground arith))

reachable : (c : Config) → management_reachable c ≡ true → (a : Attempt) × IsLetIn c a
unfolding management_reachable
reachable c h = elim (Bool-cases (str_eq (trim_space c.admin_network) "")) [
  | inr written ↦ by_admin c (λ e. let no : true ≡ false = rw (e, trim_empty) at written in cc)
  | inl unset ↦ elim (Bool-cases (is_empty (service_acl_rows c c.service_acls))) [
    | inr some_rows ↦
        let (a, port, hit) = by_row c (service_acl_rows c c.service_acls) (ground arith) in
        (a, (port, ground arith))
    | inl no_rows ↦ elim (Bool-cases (c.mgmt_on_lan && not (str_eq c.lan_interface ""))) [
      | inl lan ↦ by_side c c.lan_interface no_rows (ground (arith, eq_refl c.lan_interface))
      | inr not_lan ↦ by_side c c.wan_interface no_rows (ground (arith, eq_refl c.wan_interface))
    ]
  ]
]

-- For every configuration that passes the validation there is a new connection to SSH or HTTPS of
-- the appliance that the generated chain `input` accepts.
pub validate-input_chain :
    (c : Config)
    → validate c ≡ true
    → (a : Attempt) × ((a.port == 22 || a.port == 443) ≡ true)
      × (first_hit (attempt_holds a) (input_chain c) ≡ some "accept")
unfolding validate gateway_ok
validate-input_chain c h =
    let (a, (port, let_in)) : (a : Attempt) × IsLetIn c a = elim (Bool-cases c.gateway_enabled) [
      | inr off ↦ by_admin c (ground (arith, eq_iff c.admin_network ""))
      | inl on ↦ reachable c (ground arith)
    ] in
    (a, port, ground (arith, input_chain-admits a port c))
