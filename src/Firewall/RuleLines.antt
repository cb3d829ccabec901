-- ===== src/Firewall/RuleLines.antt =====
-- internal/adapters/nftgen/nftgen.go: the conditions of the line of a custom rule, one after the
-- other, against those of the tester of rules.
use sgsu.Prelude.{
  all-append, Bool, true, false, not, ◌&&◌, ◌||◌, Option, none, some, String, List, [], ◌∷◌, ◌++◌,
  str_eq, ltb, ◌==◌, if◌then◌else◌, all, map, ◌≡◌, ◌≢◌, ◌⊎◌, inl, inr, refl, arith, Bool-cases,
  eq_iff,
}
use sgsu.Prelude.Integers.{ℤ, pos, negsuc, eq_int}
use sgsu.Prelude.Net.{Ip}
use sgsu.Prelude.Format.{◌^^◌}
use sgsu.Firewall.{Alias, Rule, Zone, iface_name, zone_iface, valid_iface}
use sgsu.Firewall.Objects.{rule_port_ok, zones_ok, zone_ok, listed}
use sgsu.Firewall.Evaluate.{alias_passes}
use sgsu.Firewall.Nft.{Match, to_port, protocol, zone_part, alias_part, port_part}

module _ (holds : Match → Bool) where
  pub alias_agrees :
      (side : String → Match) (a : String) (pass : Bool)
      → (str_eq a "" ≡ true → pass ≡ true)
      → (a ≢ "" → holds (side ("@alias_" ^^ a)) ≡ pass)
      → all holds (alias_part side a) ≡ pass
  alias_agrees side a pass unasked asked = elim (Bool-cases (str_eq a "")) [
    | inl e ↦ ground (arith, unasked e)
    | inr ne ↦ let there : a ≢ "" = ground (arith, eq_iff a "") in ground (arith, asked there)
  ]

  pub zone_agrees :
      (side : String → Match) (zs : List Zone) (name at : String)
      → ((z : String) → zone_iface z "" zs ≢ "" → holds (side (zone_iface z "" zs)) ≡ str_eq z at)
      → (name ≢ "" → zone_iface name "" zs ≢ "")
      → all holds (zone_part side zs name) ≡ (str_eq name "" || str_eq name at)
  zone_agrees side zs name at on known = elim (Bool-cases (str_eq name "")) [
    | inl e ↦ ground arith
    | inr ne ↦
        let there : name ≢ "" = ground (arith, eq_iff name "") in
        let met : str_eq (zone_iface name "" zs) "" ≡ false =
          ground (arith, known there, eq_iff (zone_iface name "" zs) "") in
        ground (arith, on name (known there))
  ]

  pub port_agrees :
      (t : String) (n : ℤ) (proto : String) (port : ℤ)
      → str_eq t "any" || str_eq t "tcp" || str_eq t "udp" ≡ true
      → (eq_int n (pos 0) ≡ false → (str_eq t "tcp" || str_eq t "udp") ≡ true)
      → str_eq proto "any" ≡ false
      → eq_int port (pos 0) ≡ false
      → ((t : String) → holds (protocol t) ≡ str_eq t proto)
      → ((t : String) (n : ℤ) → holds (to_port t n) ≡ (str_eq t proto && eq_int n port))
      → all holds (port_part t n) ≡ (
          (str_eq t "any" || str_eq proto "any" || str_eq t proto)
          && (eq_int n (pos 0) || eq_int port (pos 0) || eq_int n port))
  port_agrees t n proto port known ok has_proto has_port on_proto on_port =
      elim (Bool-cases (str_eq t "any")) [
        | inl e ↦
            let word : t ≡ "any" = ground (arith, eq_iff t "any") in
            let apart : (str_eq t "tcp" || str_eq t "udp") ≡ false = rw (word) refl in
            elim (Bool-cases (eq_int n (pos 0))) [
              | inl unasked ↦ ground arith
              | inr asked ↦ let no : ⊥ = ground (arith, ok asked) in absurd no
            ]
        | inr ne ↦
            let word : (str_eq t "tcp" || str_eq t "udp") ≡ true = ground arith in
            elim (Bool-cases (eq_int n (pos 0))) [
              | inl unasked ↦ ground (arith, on_proto t)
              | inr asked ↦ ground (arith, on_port t n)
            ]
      ]

port_word :
    (t : String) (n : ℤ)
    → (elim n [
      | pos n ↦ n == 0 || ((str_eq t "tcp" || str_eq t "udp") && not (ltb 65535 n))
      | negsuc n ↦ false
    ])
      ≡ true
    → eq_int n (pos 0) ≡ false
    → (str_eq t "tcp" || str_eq t "udp") ≡ true
port_word t (pos n) ok there = ground arith
port_word t (negsuc n) ok there = ground arith

pub rule_port_word :
    (r : Rule)
    → rule_port_ok r ≡ true
    → eq_int r.dst_port (pos 0) ≡ false
    → (str_eq r.proto "tcp" || str_eq r.proto "udp") ≡ true
unfolding rule_port_ok
rule_port_word r ok there = port_word r.proto r.dst_port ok there

zone_ok-iface : (z : Zone) → zone_ok z ≡ true → iface_name z ≢ ""
unfolding zone_ok valid_iface
zone_ok-iface z ok e = let no : ⊥ = ground (arith, eq_iff (iface_name z) "") in absurd no

pub zone_iface-given :
    (name found : String) (names ifaces : List String) (zs : List Zone)
    → zones_ok names ifaces zs ≡ true
    → found ≢ "" ⊎ (listed name (map (λ z. z.name) zs) ≡ true)
    → zone_iface name found zs ≢ ""
unfolding zones_ok zone_iface
zone_iface-given name found names ifaces [] ok (inl there) = there
zone_iface-given name found names ifaces [] ok (inr no_) = let no : ⊥ = ground arith in absurd no
zone_iface-given name found names ifaces (z ∷ zs) ok known =
    let later : zones_ok (z.name ∷ names) (iface_name z ∷ ifaces) zs ≡ true = ground arith in
    let valid : zone_ok z ≡ true = ground arith in
    let now = if str_eq z.name name then iface_name z else found in
    let rest : now ≢ "" ⊎ (listed name (map (λ z. z.name) zs) ≡ true)
        → zone_iface name now zs ≢ "" =
      zone_iface-given name now _ _ zs later in
    elim (Bool-cases (str_eq z.name name)) [
      | inl here ↦ rest (inl (rw (here) (zone_ok-iface z valid)))
      | inr off ↦ elim known [
        | inl there ↦ rest (inl (rw (off) there))
        | inr named ↦ rest (inr (ground arith))
      ]
    ]

pub alias_unasked :
    (known : List Alias) (a : String) (ip : Option Ip)
    → str_eq a "" ≡ true
    → alias_passes known a ip ≡ true
unfolding alias_passes
alias_unasked known a none e = e
alias_unasked known a (some ip) e = ground arith

pub all_parts :
    (holds : Match → Bool) (a b d e f g : List Match) (a' b' d' e' f' : Bool)
    → all holds a ≡ a'
    → all holds b ≡ b'
    → all holds d ≡ d'
    → all holds e ≡ e'
    → all holds f ≡ f'
    → all holds g ≡ true
    → all holds (a ++ (b ++ (d ++ (e ++ (f ++ g))))) ≡ (a' && (b' && (d' && (e' && f'))))
all_parts holds a b d e f g a' b' d' e' f' p q r s t u = ground (
  arith,
  all-append holds a (b ++ (d ++ (e ++ (f ++ g)))),
  all-append holds b (d ++ (e ++ (f ++ g))),
  all-append holds d (e ++ (f ++ g)),
  all-append holds e (f ++ g),
  all-append holds f g,
)
