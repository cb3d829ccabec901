-- ===== src/Kea/Overlap.antt =====
-- No two subnets of the configuration overlap.
use sgsu.Prelude.{
  Bool, false, not, ◌||◌, Option, none, some, String, List, [], ◌∷◌, ◌++◌, map, str_eq, any, keep,
  ◌≡◌, refl, sym, ◌∙◌, ap, subst, arith, Bool-cases, Option-cases, inl, inr, eq_iff,
}
use sgsu.Prelude.Integers.{ℤ, eq_int}
use sgsu.Prelude.Json.{
  Json, object, string, list, num, int, bool, null, Fields, get, set, as_text, get-set, get-unset,
}
use sgsu.Kea.{
  SubnetSpec, validate, ensure_defaults, subnet_slice, subnet_id, subnet_text, cidrs_overlap,
  conflicts, new_entry, add_subnet, Update, updated, missing, other_subnet, crashed, after_entry,
  update_entry, update_entries, updated_entry, option_data, pools, finish_update, update_subnet,
  delete_subnet,
}
use sgsu.Kea.Ids.{subnets-ensure_defaults, subnets-set, subnets-add}

-- Whether two subnets are written alike or share an address
abbrev pub clash : Option String → Option String → Bool
clash none _ = false
clash (some a) none = false
clash (some a) (some b) = str_eq b a || cidrs_overlap b a

abbrev pub IsApart : List (Option String) → Type 0
IsApart [] = Unit
IsApart (t ∷ ts) = (any (clash t) ts ≡ false) × IsApart ts

abbrev pub texts : List Json → List (Option String)
texts es = map subnet_text es

-- No two subnets of the configuration are written alike or share an address.
abbrev pub NoOverlap : Fields → Type 0
NoOverlap d = IsApart (texts (subnet_slice d))

clash_comm : (s t : Option String) → clash s t ≡ clash t s
unfolding cidrs_overlap
clash_comm none none = refl
clash_comm none (some b) = refl
clash_comm (some a) none = refl
clash_comm (some a) (some b) = ground (arith, eq_iff a b, eq_iff b a)

any-append :
    (s : Option String) (ts : List (Option String)) (t : Option String)
    → any (clash s) (ts ++ (t ∷ [])) ≡ (any (clash s) ts || clash s t)
any-append s [] t = ground arith
any-append s (u ∷ ts) t = ground (arith, any-append s ts t)

append-IsApart :
    (ts : List (Option String)) (t : Option String)
    → IsApart ts
    → any (clash t) ts ≡ false
    → IsApart (ts ++ (t ∷ []))
append-IsApart [] t _ h = (refl, tt)
append-IsApart (u ∷ ts) t (apart, d) h =
    (ground (arith, any-append u ts t, clash_comm u t), append-IsApart ts t d (ground arith))

any-conflicts :
    (s : String) (es : List Json) → any (conflicts s) es ≡ any (clash (some s)) (texts es)
unfolding conflicts
any-conflicts s [] = refl
any-conflicts s (e ∷ es) = ground (arith, any-conflicts s es)

texts-append :
    (es : List Json) (e : Json) → texts (es ++ (e ∷ [])) ≡ texts es ++ (subnet_text e ∷ [])
texts-append [] e = refl
texts-append (x ∷ es) e = ap (λ ts. subnet_text x ∷ ts) (texts-append es e)

subnet_text-new_entry : (id : ℤ) (s : SubnetSpec) → subnet_text (new_entry id s) ≡ some s.subnet
unfolding new_entry get set
subnet_text-new_entry id s = elim (Bool-cases (str_eq s.interface "")) [
  | inl e ↦ rw (e) refl
  | inr e ↦ rw (e) refl
]

add_subnet-NoOverlap :
    (d : Fields) (s : SubnetSpec) (id : ℤ)
    → NoOverlap d
    → (add_subnet d s).1 ≡ some id
    → NoOverlap (add_subnet d s).0
add_subnet-NoOverlap d s id apart h =
    let (_, _, free, added) = subnets-add d s id h in
    subst IsApart
      (sym (
        ap texts added
        ∙ texts-append (subnet_slice d) (new_entry id s)
        ∙ ap (λ t. texts (subnet_slice d) ++ (t ∷ [])) (subnet_text-new_entry id s)))
      (append-IsApart (texts (subnet_slice d)) (some s.subnet) apart
        (sym (any-conflicts s.subnet (subnet_slice d)) ∙ free))

subnet_text-updated :
    (s : SubnetSpec) (m : Fields)
    → subnet_text (object (updated_entry s m)) ≡ subnet_text (object m)
unfolding updated_entry
subnet_text-updated s m =
    let m' = set "option-data" (option_data s) (set "pools" (pools s) m) in
    let kept : get "subnet" m' ≡ get "subnet" m =
      get-set "subnet" "option-data" _ _ ∙ get-set "subnet" "pools" _ m in
    elim (Bool-cases (str_eq s.interface "")) [
      | inl e ↦ rw (e) (ap (λ o. some (as_text o)) (get-unset "subnet" "interface" m' ∙ kept))
      | inr e ↦ rw (e) (ap (λ o. some (as_text o)) (get-set "subnet" "interface" _ m' ∙ kept))
    ]

texts-update_entry :
    (s : SubnetSpec) (e : Json) (es es' : List Json)
    → update_entry s e es ≡ updated es'
    → texts es' ≡ texts (e ∷ es)
unfolding update_entry
texts-update_entry s (object m) es es' h =
    elim (Bool-cases (str_eq (as_text (get "subnet" m)) s.subnet)) [
      | inl e ↦
          let same : updated (object (updated_entry s m) ∷ es) ≡ updated es' = rw (e) at h in
          let entries : object (updated_entry s m) ∷ es ≡ es' = cc in
          ap texts (sym entries) ∙ ap (λ t. t ∷ texts es) (subnet_text-updated s m)
      | inr e ↦ let no : other_subnet ≡ updated es' = rw (e) at h in cc
    ]
texts-update_entry s null es es' h = cc
texts-update_entry s (bool _) es es' h = cc
texts-update_entry s (num _) es es' h = cc
texts-update_entry s (int _) es es' h = cc
texts-update_entry s (string _) es es' h = cc
texts-update_entry s (list _) es es' h = cc

after_updated :
    (e : Json) (u : Update) (es' : List Json)
    → after_entry e u ≡ updated es'
    → (rest : List Json) × (u ≡ updated rest) × (es' ≡ e ∷ rest)
after_updated e (updated es) es' h = (es, refl, cc)
after_updated e missing es' h = cc
after_updated e other_subnet es' h = cc
after_updated e crashed es' h = cc

texts-update_entries :
    (id : ℤ) (s : SubnetSpec) (es es' : List Json)
    → update_entries id s es ≡ updated es'
    → texts es' ≡ texts es
unfolding update_entries update_entry
texts-update_entries id s [] es' h = cc
texts-update_entries id s (e ∷ es) es' h = elim (Bool-cases (eq_int (subnet_id e) id)) [
  | inl k ↦ texts-update_entry s e es es' (rw (k) at h)
  | inr k ↦
      let (rest, found, same) = after_updated e (update_entries id s es) es' (rw (k) at h) in
      ap texts same ∙ ap (λ ts. subnet_text e ∷ ts) (texts-update_entries id s es rest found)
]

any-keep :
    (t : Option String) (p : Json → Bool) (es : List Json)
    → any (clash t) (texts es) ≡ false
    → any (clash t) (texts (keep p es)) ≡ false
any-keep t p [] h = refl
any-keep t p (e ∷ es) h =
    let first : clash t (subnet_text e) ≡ false = ground arith in
    let rest : any (clash t) (texts es) ≡ false = ground arith in
    ground (arith, any-keep t p es rest)

keep-IsApart : (p : Json → Bool) (es : List Json) → IsApart (texts es) → IsApart (texts (keep p es))
keep-IsApart p [] _ = tt
keep-IsApart p (e ∷ es) (h, d) = elim (Bool-cases (p e)) [
  | inl k ↦ rw (k) (any-keep (subnet_text e) p es h, keep-IsApart p es d)
  | inr k ↦ rw (k) (keep-IsApart p es d)
]

finish_update-NoOverlap :
    (id : ℤ) (s : SubnetSpec) (d d' : Fields) (u : Update)
    → NoOverlap d
    → update_entries id s (subnet_slice d) ≡ u
    → NoOverlap (finish_update d d' u).0
unfolding finish_update
finish_update-NoOverlap id s d d' (updated es) apart e =
    subst (λ js. IsApart (texts js)) (sym (subnets-set es d'))
      (subst IsApart (sym (texts-update_entries id s (subnet_slice d) es e)) apart)
finish_update-NoOverlap id s d d' missing apart e = apart
finish_update-NoOverlap id s d d' other_subnet apart e = apart
finish_update-NoOverlap id s d d' crashed apart e = apart

update_subnet-NoOverlap :
    (d : Fields) (id : ℤ) (s : SubnetSpec) → NoOverlap d → NoOverlap (update_subnet d id s).0
unfolding update_subnet
update_subnet-NoOverlap d id s apart =
    let apart0 : NoOverlap (ensure_defaults d) =
      subst (λ es. IsApart (texts es)) (sym (subnets-ensure_defaults d)) apart in
    elim (Bool-cases (validate s)) [
      | inr e ↦ rw (e) apart
      | inl good ↦ rw (good) (
          finish_update-NoOverlap id s (ensure_defaults d) _
            (update_entries id s (subnet_slice (ensure_defaults d))) apart0 refl)
    ]

delete_subnet-NoOverlap : (d : Fields) (id : ℤ) → NoOverlap d → NoOverlap (delete_subnet d id).0
unfolding delete_subnet
delete_subnet-NoOverlap d id apart =
    elim (Bool-cases (any (λ e. eq_int (subnet_id e) id) (subnet_slice d))) [
      | inr e ↦ rw (e) apart
      | inl e ↦ rw (e) (
          subst (λ es. IsApart (texts es)) (sym (subnets-set _ d))
            (keep-IsApart (λ x. not (eq_int (subnet_id x) id)) (subnet_slice d) apart))
    ]

add_failed :
    (d : Fields) (s : SubnetSpec)
    → (add_subnet d s).1 ≡ none
    → subnet_slice (add_subnet d s).0 ≡ subnet_slice d
unfolding add_subnet
add_failed d s h = elim (Bool-cases (validate s)) [
  | inr e ↦ rw (e) refl
  | inl good ↦ elim (Bool-cases (any (conflicts s.subnet) (subnet_slice (ensure_defaults d)))) [
    | inl e ↦ rw (good, e) (subnets-ensure_defaults d)
    | inr e ↦ let no : ⊥ = ground arith in absurd no
  ]
]

-- Adding, updating and deleting a subnet each keep, whether they succeed or not, the subnets of
-- the configuration from overlapping, as `CIDRsOverlap` reads their texts.
pub subnets_stay_apart :
    (d : Fields) (s : SubnetSpec) (id : ℤ)
    → NoOverlap d
    → NoOverlap (add_subnet d s).0
      × NoOverlap (update_subnet d id s).0
      × NoOverlap (delete_subnet d id).0
subnets_stay_apart d s id apart = (
  elim (Option-cases (add_subnet d s).1) [
    | inl e ↦ subst (λ es. IsApart (texts es)) (sym (add_failed d s e)) apart
    | inr (new, e) ↦ add_subnet-NoOverlap d s new apart e
  ],
  update_subnet-NoOverlap d id s apart,
  delete_subnet-NoOverlap d id apart,
)
