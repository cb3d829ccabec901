-- ===== src/Kea/Ids.antt =====
-- The ids of subnets: `AddSubnet` and `DeleteSubnet`.
use sgsu.Prelude.{
  ℕ, suc, ◌^◌, ◌<◌, ◌≤◌, true, false, not, ◌||◌, none, some, String, List, [], ◌∷◌, ◌++◌, str_eq,
  if◌then◌else◌, any, keep, map, ◌≡◌, refl, sym, ◌∙◌, ap, subst, arith, Bool-cases, inl, inr,
}
use sgsu.Prelude.Integers.{ℤ, pos, negsuc, eq_int}
use sgsu.Prelude.Json.{
  Json, list, Fields, get, set, transmitted, transmitted_fields, as_list-transmitted, as_text,
  as_list, of_elements, get-set, elements-of_elements,
}
use sgsu.Kea.{
  SubnetSpec, validate, ensure_defaults, ensure_interface, subnet_slice, subnet_id, conflicts,
  raise, interfaces_config, max_id, next_id, new_entry, add_subnet, delete_subnet,
}

max_id_grows : (n : ℕ) (es : List Json) → n ≤ max_id n es
unfolding max_id
max_id_grows n [] = omega arith
max_id_grows n (e ∷ es) =
    ground (arith, max_id_grows (raise n (subnet_id e)) es, grows (subnet_id e))
  where
    grows : (i : ℤ) → n ≤ raise n i
    grows (pos m) = ground arith
    grows (negsuc m) = omega arith

above : (i : ℤ) (n m : ℕ) → raise n i ≤ m → eq_int i (pos (suc m)) ≡ false
above (pos i) n m h = ground arith
above (negsuc i) n m h = refl

fresh_above :
    (n m : ℕ) (es : List Json)
    → max_id n es ≤ m
    → any (λ e. eq_int (subnet_id e) (pos (suc m))) es ≡ false
unfolding max_id
fresh_above n m [] h = refl
fresh_above n m (e ∷ es) h =
    let up = max_id_grows (raise n (subnet_id e)) es in
    ground (
      arith,
      above (subnet_id e) n m (omega (arith, up, h)),
      fresh_above (raise n (subnet_id e)) m es h,
    )

pub subnets-ensure_defaults : (d : Fields) → subnet_slice (ensure_defaults d) ≡ subnet_slice d
unfolding ensure_defaults
subnets-ensure_defaults d = ap as_list (get-set "subnet4" "interfaces-config" _ d)

pub subnets-ensure_interface :
    (d : Fields) (iface : String) → subnet_slice (ensure_interface d iface) ≡ subnet_slice d
unfolding ensure_interface
subnets-ensure_interface d iface =
    elim (Bool-cases (
      str_eq iface ""
      || any (λ v. str_eq (as_text (some v)) iface || str_eq (as_text (some v)) "*")
          (as_list (get "interfaces" (interfaces_config (ensure_defaults d)))))) [
            | inl e ↦ rw (e) (subnets-ensure_defaults d)
            | inr e ↦
                rw (e) (
                  ap as_list (get-set "subnet4" "interfaces-config" _ _)
                  ∙ subnets-ensure_defaults d)
          ]

pub subnets-set :
    (js : List Json) (d : Fields) → subnet_slice (set "subnet4" (list (of_elements js)) d) ≡ js
subnets-set js d = ap as_list (get-set "subnet4" "subnet4" _ d) ∙ elements-of_elements js

pub subnets-add :
    (d : Fields) (s : SubnetSpec) (id : ℤ)
    → (add_subnet d s).1 ≡ some id
    → (id ≡ next_id (max_id 0 (subnet_slice d)))
      × (validate s ≡ true)
      × (any (conflicts s.subnet) (subnet_slice d) ≡ false)
      × (subnet_slice (add_subnet d s).0 ≡ subnet_slice d ++ (new_entry id s ∷ []))
unfolding add_subnet
subnets-add d s id h = elim (Bool-cases (validate s)) [
  | inr e ↦ let no : none ≡ some id = rw (e) at h in cc
  | inl good ↦ elim (Bool-cases (any (conflicts s.subnet) (subnet_slice (ensure_defaults d)))) [
    | inl e ↦ let no : none ≡ some id = rw (good, e) at h in cc
    | inr free ↦
        let same = subnets-ensure_defaults d in
        let d0 = ensure_defaults d in
        let d' = if str_eq s.interface "" then d0 else ensure_interface d0 s.interface in
        let is_id : id ≡ next_id (max_id 0 (subnet_slice d0)) = ground arith in
        let left : (add_subnet d s).0
            ≡ set "subnet4" (list (of_elements (subnet_slice d0 ++ (new_entry id s ∷ [])))) d' =
          rw (good, free, is_id) in
        (
          is_id ∙ ap (λ es. next_id (max_id 0 es)) same,
          good,
          subst (λ es. any (conflicts s.subnet) es ≡ false) same free,
          ap subnet_slice left ∙ subnets-set _ d' ∙ ap (λ es. es ++ (new_entry id s ∷ [])) same,
        )
  ]
]

subnet_id-transmitted :
    (round : ℤ → ℤ) (id : ℤ) (s : SubnetSpec)
    → round id ≡ id
    → subnet_id (transmitted round (new_entry id s)) ≡ id
unfolding new_entry subnet_id get set
subnet_id-transmitted round id s exact = elim (Bool-cases (str_eq s.interface "")) [
  | inl e ↦ rw (e) exact
  | inr e ↦ rw (e) exact
]

eq_int_refl : (i : ℤ) → eq_int i i ≡ true
eq_int_refl (pos n) = ground arith
eq_int_refl (negsuc n) = ground arith

-- A successful `AddSubnet` hands out an id that no subnet has, the number after the largest one, as
-- long as that is below 2^53.
add_subnet_fresh :
    (d : Fields) (s : SubnetSpec) (id : ℤ)
    → (add_subnet d s).1 ≡ some id
    → max_id 0 (subnet_slice d) < 2 ^ 53
    → (any (λ e. eq_int (subnet_id e) id) (subnet_slice d) ≡ false)
      × (subnet_slice (add_subnet d s).0 ≡ subnet_slice d ++ (new_entry id s ∷ []))
      × (id ≡ pos (suc (max_id 0 (subnet_slice d))))
add_subnet_fresh d s id h small =
    let (is_id, good, free, added) = subnets-add d s id h in
    let n = max_id 0 (subnet_slice d) in
    let plain : next_id n ≡ pos (suc n) = ground arith in
    (
      subst (λ i. any (λ e. eq_int (subnet_id e) i) (subnet_slice d) ≡ false) (sym (is_id ∙ plain))
          (fresh_above 0 n (subnet_slice d) (omega arith)),
      added,
      is_id ∙ plain,
    )

keep_others :
    (id : ℤ) (es : List Json) (e : Json)
    → any (λ x. eq_int (subnet_id x) id) es ≡ false
    → eq_int (subnet_id e) id ≡ true
    → keep (λ x. not (eq_int (subnet_id x) id)) (es ++ (e ∷ [])) ≡ es
keep_others id [] e h k = rw (k)
keep_others id (x ∷ es) e h k =
    let first : eq_int (subnet_id x) id ≡ false = ground arith in
    let rest : any (λ x. eq_int (subnet_id x) id) es ≡ false = ground arith in
    rw (first, keep_others id es e rest k)

any-append :
    (id : ℤ) (es : List Json) (e : Json)
    → eq_int (subnet_id e) id ≡ true
    → any (λ x. eq_int (subnet_id x) id) (es ++ (e ∷ [])) ≡ true
any-append id [] e k = rw (k)
any-append id (x ∷ es) e k = ground (arith, any-append id es e k)

map-append :
    (f : Json → Json) (es : List Json) (e : Json) → map f (es ++ (e ∷ [])) ≡ map f es ++ (f e ∷ [])
map-append f [] e = refl
map-append f (x ∷ es) e = ap (λ xs. f x ∷ xs) (map-append f es e)

-- `DeleteSubnet` undoes `AddSubnet` once the configuration has gone to the server and back as JSON:
-- deleting the id that was handed out succeeds and leaves the subnets that were there before, in
-- their order. The configuration before is one that JSON leaves as it is, its largest id is below
-- 2^53, and every integer up to 2^53 is a float64.
pub delete_subnet-add_subnet :
    (round : ℤ → ℤ) (d : Fields) (s : SubnetSpec) (id : ℤ)
    → ((n : ℕ) → n ≤ 2 ^ 53 → round (pos n) ≡ pos n)
    → transmitted_fields round d ≡ d
    → (add_subnet d s).1 ≡ some id
    → max_id 0 (subnet_slice d) < 2 ^ 53
    → ((delete_subnet (transmitted_fields round (add_subnet d s).0) id).1 ≡ true)
      × (subnet_slice (delete_subnet (transmitted_fields round (add_subnet d s).0) id).0
          ≡ subnet_slice d)
unfolding delete_subnet
delete_subnet-add_subnet round d s id exact decoded h small =
    let (fresh, added, is_id) = add_subnet_fresh d s id h small in
    let entry = transmitted round (new_entry id s) in
    let read : subnet_id entry ≡ id =
      subnet_id-transmitted round id s
        (ap round is_id ∙ exact (suc (max_id 0 (subnet_slice d))) (omega arith) ∙ sym is_id) in
    let here : eq_int (subnet_id entry) id ≡ true = rw (read) (eq_int_refl id) in
    let old : map (transmitted round) (subnet_slice d) ≡ subnet_slice d =
      sym (as_list-transmitted round "subnet4" d) ∙ ap subnet_slice decoded in
    let sent : subnet_slice (transmitted_fields round (add_subnet d s).0)
        ≡ subnet_slice d ++ (entry ∷ []) =
      as_list-transmitted round "subnet4" (add_subnet d s).0
      ∙ ap (map (transmitted round)) added
      ∙ map-append (transmitted round) (subnet_slice d) (new_entry id s)
      ∙ ap (λ es. es ++ (entry ∷ [])) old in
    let found : any (λ x. eq_int (subnet_id x) id)
          (subnet_slice (transmitted_fields round (add_subnet d s).0))
        ≡ true =
      rw (sent) (any-append id (subnet_slice d) entry here) in
    (
      rw (found) refl,
      rw (found) (subnets-set _ _ ∙ rw (sent) (keep_others id (subnet_slice d) entry fresh here)),
    )
