-- ===== src/Vpn/Allocation.antt =====
-- internal/adapters/wireguard/wireguard.go: the address that `AllocateAddress` gives a new peer.
use sgsu.Prelude.{
  ℕ, zero, suc, ◌+◌, ◌-◌, ◌^◌, ◌<◌, ◌≤◌, Bool, true, false, Option, some, String, List, [], ◌∷◌,
  str_eq, ◌==◌, if◌then◌else◌, any, map, length, ◌≡◌, ◌≢◌, ◌⊎◌, inl, inr, refl, arith, Bool-cases,
  eq_iff, ap, sym, ◌∙◌,
}
use sgsu.Prelude.Net.{Ip, v4, IpNet, parse_ip, parse_cidr}
use sgsu.Prelude.Net.Texts.{ip_text, parse_ip-ip_text}
use sgsu.Vpn.{
  VpnConfig, Peer, Result, ok, failed, first_host, taken, find_free, host_count, allocate_address,
  allocate_from, base_of, base_at,
}

abbrev pub is_taken : List String → String → Bool
is_taken used s = any (λ u. str_eq u s) used

-- The lowest free address of the candidates from `i` on: it is free, and all before it are taken.
abbrev pub IsLowest : List String → (base i left : ℕ) → String → Type 0
IsLowest used base i left a =
    (j : ℕ) × (i ≤ j)
    × (j < i + left)
    × (a ≡ ip_text (base + j))
    × (is_taken used a ≡ false)
    × ((k : ℕ) → i ≤ k → k < j → is_taken used (ip_text (base + k)) ≡ true)

abbrev text_of : String → Result String → String
text_of s (ok t) = t
text_of s _ = s

abbrev number_of : ℕ → Option Ip → ℕ
number_of n (some (v4 m)) = m
number_of n _ = n

pub find_free-IsLowest :
    (used : List String) (base i left : ℕ) (a : String)
    → find_free used base i left ≡ ok a
    → IsLowest used base i left a
unfolding find_free
find_free-IsLowest used base i zero a h = cc
find_free-IsLowest used base i (suc left) a h =
    elim (Bool-cases (is_taken used (ip_text (base + i)))) [
      | inr free ↦
          let here : find_free used base i (suc left) ≡ ok (ip_text (base + i)) = ground arith in
          let same : a ≡ ip_text (base + i) = ap (text_of a) (sym h ∙ here) in
          (
            i,
            omega arith,
            omega arith,
            same,
            ap (is_taken used) same ∙ free,
            λ k low high. let no : ⊥ = omega arith in absurd no,
          )
      | inl busy ↦
          let there : find_free used base (suc i) left ≡ ok a = ground arith in
          let (j, low, high, same, free, before) =
            find_free-IsLowest used base (suc i) left a there in
          (
            j,
            omega arith,
            omega arith,
            same,
            free,
            λ k from to. elim (Bool-cases (k == i)) [
              | inl e ↦
                  let at : k ≡ i = ground arith in
                  ap (λ n. is_taken used (ip_text (base + n))) at ∙ busy
              | inr ne ↦ before k (ground arith) to
            ],
          )
    ]

ip_text_inj : (m n : ℕ) → m < 2 ^ 32 → n < 2 ^ 32 → ip_text m ≡ ip_text n → m ≡ n
ip_text_inj m n ltm ltn same =
    ap (number_of m) (sym (parse_ip-ip_text m ltm) ∙ ap parse_ip same ∙ parse_ip-ip_text n ltn)

abbrev remove : String → List String → List String
remove s [] = []
remove s (u ∷ us) = if str_eq u s then us else u ∷ remove s us

length-remove :
    (s : String) (us : List String) → is_taken us s ≡ true → length us ≡ suc (length (remove s us))
length-remove s [] h = cc
length-remove s (u ∷ us) h = elim (Bool-cases (str_eq u s)) [
  | inl e ↦ ground arith
  | inr ne ↦ let rest = length-remove s us (ground arith) in ground arith
]

taken-remove :
    (s t : String) (us : List String)
    → t ≢ s
    → is_taken us t ≡ true
    → is_taken (remove s us) t ≡ true
taken-remove s t [] apart h = h
taken-remove s t (u ∷ us) apart h = elim (Bool-cases (str_eq u s)) [
  | inl e ↦ elim (Bool-cases (str_eq u t)) [
    | inl e' ↦
        let one : u ≡ s = ground (arith, eq_iff u s) in
        let other : u ≡ t = ground (arith, eq_iff u t) in absurd (apart (sym other ∙ one))
    | inr ne ↦ ground arith
  ]
  | inr ne ↦ elim (Bool-cases (str_eq u t)) [
    | inl e' ↦ ground arith
    | inr ne' ↦ let rest = taken-remove s t us apart (ground arith) in ground arith
  ]
]

-- Different addresses that are all taken are no more than the list.
all_taken :
    (us : List String) (base i left : ℕ)
    → base + (i + left) ≤ 2 ^ 32
    → ((k : ℕ) → i ≤ k → k < i + left → is_taken us (ip_text (base + k)) ≡ true)
    → left ≤ length us
all_taken us base i zero fits h = omega arith
all_taken us base i (suc left) fits h =
    let first = h i (omega arith) (omega arith) in
    let s = ip_text (base + i) in
    let others = all_taken (remove s us) base (suc i) left (omega arith) (λ k from to.
      taken-remove s (ip_text (base + k)) us
        (λ same.
          let clash : base + k ≡ base + i =
            ip_text_inj (base + k) (base + i) (omega arith) (omega arith) same in
          omega arith)
        (h k (omega arith) (omega arith))) in
    let shorter = length-remove s us first in omega arith

find_free-all :
    (used : List String) (base i left : ℕ)
    → find_free used base i left ≡ failed
    → (k : ℕ) → i ≤ k
    → k < i + left
    → is_taken used (ip_text (base + k)) ≡ true
unfolding find_free
find_free-all used base i zero h k from to = let no : ⊥ = omega arith in absurd no
find_free-all used base i (suc left) h k from to =
    elim (Bool-cases (is_taken used (ip_text (base + i)))) [
      | inr free ↦ let no : ⊥ = ground arith in absurd no
      | inl busy ↦ elim (Bool-cases (k == i)) [
        | inl e ↦
            let at : k ≡ i = ground arith in ap (λ n. is_taken used (ip_text (base + n))) at ∙ busy
        | inr ne ↦
            find_free-all used base (suc i) left (ground arith) k (ground arith) (omega arith)
      ]
    ]

find_free-answers :
    (used : List String) (base i left : ℕ)
    → ((a : String) × (find_free used base i left ≡ ok a)) ⊎ (find_free used base i left ≡ failed)
unfolding find_free
find_free-answers used base i zero = inr refl
find_free-answers used base i (suc left) = elim (Bool-cases (is_taken used (ip_text (base + i)))) [
  | inr free ↦ inl (ip_text (base + i), ground arith)
  | inl busy ↦ elim (find_free-answers used base (suc i) left) [
    | inl (a, found) ↦ inl (a, ground arith)
    | inr empty ↦ inr (ground arith)
  ]
]

-- An address after the first host is not the server's.
beyond_server :
    (c : VpnConfig) (base k : ℕ)
    → base + k < 2 ^ 32
    → 2 ≤ k
    → is_taken (taken c base) (ip_text (base + k)) ≡ true
    → is_taken (map (λ p. p.address) c.peers) (ip_text (base + k)) ≡ true
beyond_server c base k fits from busy =
    elim (Bool-cases (str_eq (ip_text (first_host base)) (ip_text (base + k)))) [
      | inl e ↦
          let same : ip_text (first_host base) ≡ ip_text (base + k) =
            ground (arith, eq_iff (ip_text (first_host base)) (ip_text (base + k))) in
          let clash = ip_text_inj (first_host base) (base + k) (omega arith) fits same in
          let no : ⊥ = omega arith in absurd no
      | inr ne ↦ ground arith
    ]

length-map {ℓ κ} :
    {A : Type ℓ} → {B : Type κ} → (f : A → B) (xs : List A) → length (map f xs) ≡ length xs
length-map f [] = refl
length-map f (x ∷ xs) = ap suc (length-map f xs)

allocate_address-find :
    (c : VpnConfig) (net : IpNet) (base : ℕ)
    → parse_cidr c.subnet ≡ some net
    → net.ip ≡ v4 base
    → allocate_address c ≡ find_free (taken c base) base 2 (host_count net.ones - 3)
unfolding allocate_address
allocate_address-find c net base parsed is =
    ap (λ o. allocate_from c (base_of o)) parsed ∙ ap (λ b. allocate_from c b) (ap (base_at net) is)

-- The address that a new peer gets in an IPv4 network: it is the lowest of the host addresses from
-- the third address on, without the last one, that neither the server nor a peer has, and all lower
-- ones are taken.
allocate_address-IsLowest :
    (c : VpnConfig) (net : IpNet) (base : ℕ) (a : String)
    → parse_cidr c.subnet ≡ some net
    → net.ip ≡ v4 base
    → allocate_address c ≡ ok a
    → IsLowest (taken c base) base 2 (host_count net.ones - 3) a
allocate_address-IsLowest c net base a parsed is h =
    find_free-IsLowest (taken c base) base 2 (host_count net.ones - 3) a
      (sym (allocate_address-find c net base parsed is) ∙ h)

-- In an IPv4 network that ends within the addresses of IPv4 and has fewer peers than host addresses
-- besides the server's, a new peer gets an address.
pub allocate_address-enough :
    (c : VpnConfig) (net : IpNet) (base : ℕ)
    → parse_cidr c.subnet ≡ some net
    → net.ip ≡ v4 base
    → base + host_count net.ones ≤ 2 ^ 32
    → length c.peers < host_count net.ones - 3
    → (a : String) × (allocate_address c ≡ ok a)
allocate_address-enough c net base parsed is fits few =
    let left = host_count net.ones - 3 in
    let used = taken c base in
    let asked = allocate_address-find c net base parsed is in
    elim (find_free-answers used base 2 left) [
      | inl (a, found) ↦ (a, asked ∙ found)
      | inr empty ↦
          let busy = find_free-all used base 2 left empty in
          let more =
            all_taken (map (λ p. p.address) c.peers) base 2 left (omega arith)
              (λ k from to. beyond_server c base k (omega arith) from (busy k from to)) in
          let same = length-map (λ (p : Peer). p.address) c.peers in
          let no : ⊥ = omega arith in absurd no
    ]
