-- ===== src/Firewall/Isolation.antt =====
-- internal/adapters/nftgen/nftgen.go: what the lines of the zones in the generated chain `forward`
-- let pass between two zones.
use sgsu.Prelude.{
  Bool, true, false, not, ◌&&◌, none, some, String, List, [], ◌∷◌, ◌++◌, str_eq, ltb, if◌then◌else◌,
  any, only_if, gather, ◌≡◌, ◌≢◌, inl, inr, refl, arith, Bool-cases, eq_iff, eq_refl, ap, sym, ◌∙◌,
}
use mathlib.Core.List.{Memᴰ}
use sgsu.Firewall.{Config, Zone, iface_name}
use sgsu.Firewall.Objects.{listed, zones_ok, validate_objects}
use sgsu.Firewall.Nft.{Match, Line, in_iface, out_iface, first_hit, zone_trust}
use sgsu.Firewall.Forward.{is_inner, zone_to_wan, zone_to_zone, zone_lines}
use sgsu.Firewall.Verdicts.{first_hit-skip}
use sgsu.Firewall.Management.{accept_if, first_hit-either, accept_if-or}

iface-unlisted :
    (names ifaces : List String) (zs : List Zone) (z : Zone)
    → zones_ok names ifaces zs ≡ true
    → Memᴰ z zs
    → listed (iface_name z) ifaces ≡ false
unfolding zones_ok
iface-unlisted names ifaces [] z ok held = elim held [ ]
iface-unlisted names ifaces (y ∷ zs) z ok (Memᴰ.head same) = rw (same) (ground arith)
iface-unlisted names ifaces (y ∷ zs) z ok (Memᴰ.tail held) =
    let later = iface-unlisted (y.name ∷ names) (iface_name y ∷ ifaces) zs z (ground arith) held in
    ground arith

listed-first : (a b : String) (ss : List String) → a ≡ b → listed b (a ∷ ss) ≡ false → ⊥
listed-first a b ss same unlisted =
    let no : true ≡ false = sym (eq_refl b) ∙ ground (arith, eq_iff a b) in absurd (ground arith)

iface_unique :
    (names ifaces : List String) (zs : List Zone) (y z : Zone)
    → zones_ok names ifaces zs ≡ true
    → Memᴰ y zs
    → Memᴰ z zs
    → iface_name y ≡ iface_name z
    → y ≡ z
unfolding zones_ok
iface_unique names ifaces [] y z ok held_y held_z same = elim held_y [ ]
iface_unique names ifaces (x ∷ zs) y z ok (Memᴰ.head e) (Memᴰ.head e') same = e ∙ sym e'
iface_unique names ifaces (x ∷ zs) y z ok (Memᴰ.head e) (Memᴰ.tail held) same =
    let later = iface-unlisted (x.name ∷ names) (iface_name x ∷ ifaces) zs z (ground arith) held in
    let no : ⊥ =
      listed-first (iface_name x) (iface_name z) ifaces (ap iface_name (sym e) ∙ same) later in
    absurd no
iface_unique names ifaces (x ∷ zs) y z ok (Memᴰ.tail held) (Memᴰ.head e) same =
    let later = iface-unlisted (x.name ∷ names) (iface_name x ∷ ifaces) zs y (ground arith) held in
    let no : ⊥ =
      listed-first (iface_name x) (iface_name y) ifaces (ap iface_name (sym e) ∙ sym same) later in
    absurd no
iface_unique names ifaces (x ∷ zs) y z ok (Memᴰ.tail held) (Memᴰ.tail held') same =
    iface_unique (x.name ∷ names) (iface_name x ∷ ifaces) zs y z (ground arith) held held' same

-- Whether the line from a zone to another holds of a packet between two interfaces
abbrev crosses : String → String → Zone → Zone → Bool
crosses i o s d =
    (is_inner s
      && (is_inner d && not (str_eq s.name d.name))
      && ltb (zone_trust d.kind) (zone_trust s.kind))
    && (str_eq (iface_name s) i && str_eq (iface_name d) o)

module _ (holds : Match → Bool) (i o : String)
    (on_in : (x : String) → holds (in_iface x) ≡ str_eq x i)
    (on_out : (x : String) → holds (out_iface x) ≡ str_eq x o) where
  zone_to_wan-miss :
      (c : Config) (z : Zone)
      → str_eq c.wan_interface o ≡ false
      → first_hit holds (zone_to_wan c z) ≡ none
  unfolding zone_to_wan
  zone_to_wan-miss c z apart = ground (arith, on_out c.wan_interface)

  gather-miss {ℓ} :
      {A : Type ℓ}
      → (f : A → List Line) (xs : List A) → ((x : A) → first_hit holds (f x) ≡ none)
      → first_hit holds (gather f xs) ≡ none
  gather-miss f [] each = refl
  gather-miss f (x ∷ xs) each =
      first_hit-skip holds (f x) (gather f xs) (each x) ∙ gather-miss f xs each

  zone_to_zone-hit :
      (s d : Zone) → first_hit holds (zone_to_zone s d) ≡ accept_if (crosses i o s d) none
  unfolding zone_to_zone
  zone_to_zone-hit s d = ground (arith, on_in (iface_name s), on_out (iface_name d))

  gather-hit {ℓ} :
      {A : Type ℓ}
      → (f : A → List Line) (p : A → Bool) (xs : List A)
      → ((x : A) → first_hit holds (f x) ≡ accept_if (p x) none)
      → first_hit holds (gather f xs) ≡ accept_if (any p xs) none
  gather-hit f p [] each = refl
  gather-hit f p (x ∷ xs) each =
      first_hit-either holds (p x) (f x) (gather f xs) (each x)
      ∙ ap (accept_if (p x)) (gather-hit f p xs each)
      ∙ accept_if-or (p x) (any p xs) none

any-held {ℓ} :
    {A : Type ℓ} → (p : A → Bool) (xs : List A) (x : A) → Memᴰ x xs → p x ≡ true → any p xs ≡ true
any-held p [] x held hit = elim held [ ]
any-held p (y ∷ xs) x (Memᴰ.head same) hit =
    let here : p y ≡ true = ap p (sym same) ∙ hit in ground arith
any-held p (y ∷ xs) x (Memᴰ.tail held) hit = let later = any-held p xs x held hit in ground arith

any-found {ℓ} :
    {A : Type ℓ}
    → (p : A → Bool) (xs : List A) → any p xs ≡ true
    → (x : A) × Memᴰ x xs × (p x ≡ true)
any-found p [] h = cc
any-found p (x ∷ xs) h = elim (Bool-cases (p x)) [
  | inl hit ↦ (x, Memᴰ.head refl, hit)
  | inr off ↦ let (y, held, hit) = any-found p xs (ground arith) in (y, Memᴰ.tail held, hit)
]

crosses_sound :
    (zs : List Zone) (s d a b : Zone)
    → zones_ok [] [] zs ≡ true
    → Memᴰ s zs
    → Memᴰ d zs
    → Memᴰ a zs
    → Memᴰ b zs
    → crosses (iface_name s) (iface_name d) a b ≡ true
    → ltb (zone_trust d.kind) (zone_trust s.kind) ≡ true
crosses_sound zs s d a b ok held_s held_d held_a held_b hit =
    let from : iface_name a ≡ iface_name s = ground (arith, eq_iff (iface_name a) (iface_name s)) in
    let to : iface_name b ≡ iface_name d = ground (arith, eq_iff (iface_name b) (iface_name d)) in
    let same_a = iface_unique [] [] zs a s ok held_a held_s from in
    let same_b = iface_unique [] [] zs b d ok held_b held_d to in
    let higher : ltb (zone_trust b.kind) (zone_trust a.kind) ≡ true = ground arith in
    rw (sym same_a, sym same_b) higher

any-crosses :
    (zs : List Zone) (s d : Zone)
    → zones_ok [] [] zs ≡ true
    → Memᴰ s zs
    → Memᴰ d zs
    → (is_inner s && is_inner d) ≡ true
    → s.name ≢ d.name
    → any (λ a. any (crosses (iface_name s) (iface_name d) a) zs) zs
      ≡ ltb (zone_trust d.kind) (zone_trust s.kind)
any-crosses zs s d ok held_s held_d inner names =
    let c = crosses (iface_name s) (iface_name d) in
    elim (Bool-cases (ltb (zone_trust d.kind) (zone_trust s.kind))) [
      | inl higher ↦
          let here : c s d ≡ true =
            ground (arith, eq_iff s.name d.name, eq_refl (iface_name s), eq_refl (iface_name d)) in
          any-held (λ a. any (c a) zs) zs s held_s (any-held (c s) zs d held_d here) ∙ sym higher
      | inr lower ↦ elim (Bool-cases (any (λ a. any (c a) zs) zs)) [
        | inr off ↦ off ∙ sym lower
        | inl hit ↦
            let (a, held_a, by_a) = any-found (λ a. any (c a) zs) zs hit in
            let (b, held_b, by_b) = any-found (c a) zs by_a in
            hit ∙ sym (crosses_sound zs s d a b ok held_s held_d held_a held_b by_b)
      ]
    ]

differ : (a b : String) → b ≢ a → str_eq a b ≡ false
differ a b apart = elim (Bool-cases (str_eq a b)) [
  | inl e ↦ let no : ⊥ = apart (sym (ground (arith, eq_iff a b))) in absurd no
  | inr ne ↦ ne
]

only_if-on {ℓ} : {A : Type ℓ} → (b : Bool) (xs : List A) → b ≡ true → only_if b xs ≡ xs
only_if-on b xs on = rw (on) refl

-- Two internal zones of a configuration that passes the validation, in gateway mode, the second not
-- on the WAN interface: for a packet from the interface of the first to that of the second, the
-- lines of the zones accept exactly where the first zone is of higher trust, and otherwise none of
-- them holds.
pub zone_lines-isolate :
    (c : Config) (s d : Zone) (holds : Match → Bool)
    → validate_objects c ≡ true
    → c.gateway_enabled ≡ true
    → Memᴰ s c.zones
    → Memᴰ d c.zones
    → (is_inner s && is_inner d) ≡ true
    → s.name ≢ d.name
    → iface_name d ≢ c.wan_interface
    → ((x : String) → holds (in_iface x) ≡ str_eq x (iface_name s))
    → ((x : String) → holds (out_iface x) ≡ str_eq x (iface_name d))
    → first_hit holds (zone_lines c)
      ≡ (if ltb (zone_trust d.kind) (zone_trust s.kind) then some "accept" else none)
unfolding zone_lines validate_objects
zone_lines-isolate c s d holds ok on_gateway held_s held_d inner names not_wan on_in on_out =
    let i = iface_name s in
    let o = iface_name d in
    let apart : str_eq c.wan_interface o ≡ false = differ c.wan_interface o not_wan in
    let to_wan =
      gather-miss holds i o on_in on_out (zone_to_wan c) c.zones
        (λ z. zone_to_wan-miss holds i o on_in on_out c z apart) in
    let to_zones =
      gather-hit holds i o on_in on_out (λ a. gather (zone_to_zone a) c.zones)
        (λ a. any (crosses i o a) c.zones) c.zones
        (λ a.
          gather-hit holds i o on_in on_out (zone_to_zone a) (crosses i o a) c.zones
            (zone_to_zone-hit holds i o on_in on_out a)) in
    let zones : zones_ok [] [] c.zones ≡ true = ground arith in
    let all_pairs = gather (λ a. gather (zone_to_zone a) c.zones) c.zones in
    ap (first_hit holds)
      (only_if-on c.gateway_enabled (gather (zone_to_wan c) c.zones ++ all_pairs) on_gateway)
    ∙ first_hit-skip holds (gather (zone_to_wan c) c.zones) all_pairs to_wan
    ∙ to_zones
    ∙ ap (λ b. accept_if b none) (any-crosses c.zones s d zones held_s held_d inner names)
