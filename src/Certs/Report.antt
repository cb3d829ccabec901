-- ===== src/Certs/Report.antt =====
-- What the report on certificates lists, and in which order.
use mathlib.Core.List.{append-nil, Perm, perm_middle}
use mathlib.Core.List.Perm
use sgsu.Prelude.{
  ℕ, ◌+◌, ◌*◌, true, false, Option, none, some, String, List, [], ◌∷◌, ◌++◌, ltb, leb,
  if◌then◌else◌, reverse_onto, ◌≡◌, refl, arith, Bool-cases, inl, inr, subst,
}
use sgsu.Prelude.Integers.{ℤ, pos, negsuc, lt_int}
use sgsu.Certs.{
  CertRecord, CertExpiryItem, day, days_until, item_of, added, readable, expiry_item, expiry_items,
  sink, sort_onto, cert_expiry_report,
}

-- The list in which each element is related to the next.
module _ {A : Type 0} (R : A → A → Type 0) where
  abbrev pub First : A → List A → Type 0
  First x [] = Unit
  First x (y ∷ _) = R x y

  abbrev pub Chain : List A → Type 0
  Chain [] = Unit
  Chain (x ∷ xs) = First x xs × Chain xs

abbrev Joins : {A : Type 0} → (A → A → Type 0) → List A → List A → Type 0
Joins R [] ys = Unit
Joins R (x ∷ _) ys = First R x ys

reverse_onto-Chain :
    {A : Type 0} (R : A → A → Type 0) (xs ys : List A)
    → Chain (λ x y. R y x) xs
    → Chain R ys
    → Joins R xs ys
    → Chain R (reverse_onto xs ys)
reverse_onto-Chain R [] ys cx cy j = cy
reverse_onto-Chain R (x ∷ []) ys cx cy j = (j, cy)
reverse_onto-Chain R (x ∷ z ∷ xs) ys (f, cx) cy j =
    reverse_onto-Chain R (z ∷ xs) (x ∷ ys) cx (j, cy) f

Joins-nil : {A : Type 0} (R : A → A → Type 0) (xs : List A) → Joins R xs []
Joins-nil R [] = tt
Joins-nil R (x ∷ xs) = tt

reverse_onto-Perm : {A : Type 0} (xs ys : List A) → Perm (reverse_onto xs ys) (xs ++ ys)
reverse_onto-Perm [] ys = Perm.refl ys
reverse_onto-Perm (x ∷ xs) ys = Perm.trans (reverse_onto-Perm xs (x ∷ ys)) (perm_middle xs ys)

-- The first item has no more days left than the second.
abbrev pub IsAsUrgent : CertExpiryItem → CertExpiryItem → Type 0
IsAsUrgent i j = lt_int j.days_left i.days_left ≡ false

lt_int_asym : (a b : ℤ) → lt_int a b ≡ true → lt_int b a ≡ false
lt_int_asym (pos a) (pos b) h = ground arith
lt_int_asym (pos a) (negsuc b) h = ground arith
lt_int_asym (negsuc a) (pos b) h = refl
lt_int_asym (negsuc a) (negsuc b) h = ground arith

abbrev Later : CertExpiryItem → CertExpiryItem → Type 0
Later i j = IsAsUrgent j i

sink-First :
    (i j : CertExpiryItem) (js : List CertExpiryItem)
    → Later j i
    → First Later j js
    → First Later j (sink i js)
unfolding sink
sink-First i j [] h f = h
sink-First i j (k ∷ ks) h f = elim (Bool-cases (lt_int i.days_left k.days_left)) [
  | inl t ↦ rw t f
  | inr e ↦ rw e h
]

sink-Chain :
    (i : CertExpiryItem) (js : List CertExpiryItem) → Chain Later js → Chain Later (sink i js)
unfolding sink
sink-Chain i [] c = (tt, tt)
sink-Chain i (j ∷ js) (f, c) = elim (Bool-cases (lt_int i.days_left j.days_left)) [
  | inl t ↦ rw t (sink-First i j js (lt_int_asym i.days_left j.days_left t) f, sink-Chain i js c)
  | inr e ↦ rw e (e, (f, c))
]

sink-Perm : (i : CertExpiryItem) (js : List CertExpiryItem) → Perm (sink i js) (i ∷ js)
unfolding sink
sink-Perm i [] = Perm.refl (i ∷ [])
sink-Perm i (j ∷ js) =
    elim (lt_int i.days_left j.days_left)
      as (λ b. Perm (if b then j ∷ sink i js else i ∷ j ∷ js) (i ∷ j ∷ js)) [
        | true ↦ Perm.trans (Perm.cons j (sink-Perm i js)) (Perm.swap i j js)
        | false ↦ Perm.refl (i ∷ j ∷ js)
      ]

sort_onto-Chain :
    (sorted is : List CertExpiryItem) → Chain Later sorted → Chain Later (sort_onto sorted is)
unfolding sort_onto
sort_onto-Chain sorted [] c = c
sort_onto-Chain sorted (i ∷ is) c = sort_onto-Chain (sink i sorted) is (sink-Chain i sorted c)

sort_onto-Perm : (sorted is : List CertExpiryItem) → Perm (sort_onto sorted is) (is ++ sorted)
unfolding sort_onto
sort_onto-Perm sorted [] = Perm.refl sorted
sort_onto-Perm sorted (i ∷ is) =
    Perm.trans (sort_onto-Perm (sink i sorted) is)
      (Perm.trans (Perm.append_left is (sink-Perm i sorted)) (perm_middle is sorted))

-- The item by the times alone: listed with less than 22 days left, critical with less than 8, and
-- marked as expired from a whole day after the end on.
unfoldable pub due : String → ℕ → ℕ → Option CertExpiryItem
due name exp now =
    if ltb exp (now + 22 * day)
    then some (
        item_of name exp (days_until exp now)
          (if ltb exp (now + 8 * day) then "critical" else "warning") (leb (exp + day) now))
    else none

expiry_item-due : (name : String) (exp now : ℕ) → expiry_item name exp now ≡ due name exp now
unfolding expiry_item due
expiry_item-due name exp now = ground arith

abbrev due_of : String → Option ℕ → ℕ → Option CertExpiryItem
due_of name none now = none
due_of name (some exp) now = due name exp now

-- The items of the readable certificates that are due, in the order of the certificates
abbrev pub due_items : (String → Option ℕ) → ℕ → List CertRecord → List CertExpiryItem
due_items cert_expiry now [] = []
due_items cert_expiry now (c ∷ cs) =
    added (due_of c.name (cert_expiry c.name) now) (due_items cert_expiry now cs)

readable-due : (name : String) (o : Option ℕ) (now : ℕ) → readable name o now ≡ due_of name o now
readable-due name none now = refl
readable-due name (some exp) now = expiry_item-due name exp now

expiry_items-due :
    (cert_expiry : String → Option ℕ) (now : ℕ) (cs : List CertRecord)
    → expiry_items cert_expiry now cs ≡ due_items cert_expiry now cs
unfolding expiry_items
expiry_items-due cert_expiry now [] = refl
expiry_items-due cert_expiry now (c ∷ cs) =
    rw (readable-due c.name (cert_expiry c.name) now, expiry_items-due cert_expiry now cs) refl

-- The report lists each readable certificate that is due, once, and no other: with less than 22 days
-- left, as critical with less than 8, and as expired from a whole day after its end on. No item has
-- more whole days left than the next.
cert_expiry_report_lem :
    (cert_expiry : String → Option ℕ) (now : ℕ) (certs : List CertRecord)
    → Chain IsAsUrgent (cert_expiry_report cert_expiry now certs)
      × Perm (cert_expiry_report cert_expiry now certs) (due_items cert_expiry now certs)
unfolding cert_expiry_report
cert_expiry_report_lem cert_expiry now certs =
    let is = expiry_items cert_expiry now certs in
    let sorted = sort_onto [] is in
    (
      reverse_onto-Chain IsAsUrgent sorted [] (sort_onto-Chain [] is tt) tt
          (Joins-nil IsAsUrgent sorted),
      subst (Perm (reverse_onto sorted [])) (expiry_items-due cert_expiry now certs) (
          Perm.trans
            (subst (Perm (reverse_onto sorted [])) (append-nil sorted)
              (reverse_onto-Perm sorted []))
            (subst (Perm sorted) (append-nil is) (sort_onto-Perm [] is))),
    )
