-- ===== src/Versions/Changes.antt =====
-- Which sections count as changed, and when a save makes a version.
use sgsu.Prelude.{
  Bool, true, false, not, ◌&&◌, ◌||◌, Option, none, some, String, List, [], ◌∷◌, ◌++◌, str_eq, keep,
  map, any, All, ◌≡◌, ◌≢◌, refl, arith, ap, ◌∙◌, sym, subst, Bool-cases, Option-cases, inl, inr,
  eq_iff, eq_refl,
}
use sgsu.Prelude.Table.{lookup, IsDistinct, passing, lookup-keep, keep-IsDistinct}
use sgsu.Prelude.TextOrder.{any-sort_texts}
use sgsu.Prelude.Json.{Json}
use sgsu.App.{Event, Token}
use sgsu.Firewall.Objects.{listed}
use sgsu.Versions.{
  State, Codec, Outside, Prints, Store, names, sections, value_of, is_missing, differing,
  changed_sections, section_hash, section_fingerprints, or_empty, stays_same, snapshot,
  maybe_snapshot, save_bytes, save_locked,
}
use sgsu.Versions.Requests.{change_state}

abbrev has {ℓ} : {A : Type ℓ} → Option A → Bool
has none = false
has (some _) = true

-- Whether two maps agree at a name
abbrev pub same_print : Option String → Option String → Bool
same_print none none = true
same_print (some h) (some k) = str_eq h k
same_print _ _ = false

listed-names : (n : String) (m : Prints) → listed n (names m) ≡ has (lookup n m)
unfolding lookup
listed-names n [] = refl
listed-names n ((k, v) ∷ m) = ground (arith, listed-names n m)

any-append : (p : String → Bool) (xs ys : List String) → any p (xs ++ ys) ≡ (any p xs || any p ys)
any-append p [] ys = refl
any-append p (x ∷ xs) ys = ground (arith, any-append p xs ys)

listed-keep :
    (n : String) (p : String × String → Bool) (m : Prints)
    → IsDistinct m
    → listed n (names (keep p m)) ≡ has (passing p n (lookup n m))
listed-keep n p m d = listed-names n (keep p m) ∙ ap has (lookup-keep p n m d)

prints_differ :
    (n : String) (old new : Option String)
    → new ≢ some ""
    → (has (passing (λ e. not (str_eq (value_of old) e.1)) n new)
        || has (passing (λ e. is_missing new) n old))
      ≡ not (same_print old new)
prints_differ n none none h = refl
prints_differ n none (some k) h =
    let filled : str_eq "" k ≡ false = elim (Bool-cases (str_eq "" k)) [
      | inl e ↦ absurd (h (ap (λ t. some t) (sym ((eq_iff "" k).0 e))))
      | inr e ↦ e
    ] in
    rw filled refl
prints_differ n (some j) none h = refl
prints_differ n (some j) (some k) h = ground arith

passing_at :
    (p : String × String → Bool) (n : String) (o : Option String)
    → passing p n o ≡ passing (λ e. p (n, e.1)) n o
passing_at p n none = refl
passing_at p n (some v) = refl

listed-changed_sections :
    (n : String) (prev cur : Prints)
    → IsDistinct prev
    → IsDistinct cur
    → lookup n cur ≢ some ""
    → listed n (changed_sections prev cur) ≡ not (same_print (lookup n prev) (lookup n cur))
unfolding changed_sections differing
listed-changed_sections n prev cur dp dc filled =
    any-sort_texts (λ m. str_eq m n) (differing prev cur)
    ∙ any-append (λ m. str_eq m n) (names (keep newer cur)) (names (keep gone prev))
    ∙ rw
        (
          listed-keep n newer cur dc,
          listed-keep n gone prev dp,
          passing_at newer n,
          passing_at gone n,
        )
        (prints_differ n (lookup n prev) (lookup n cur) filled)
  where
    newer : String × String → Bool
    newer e = not (str_eq (value_of (lookup e.0 prev)) e.1)

    gone : String × String → Bool
    gone e = is_missing (lookup e.0 cur)

all_new : List String → Bool
all_new [] = true
all_new (n ∷ ns) = not (listed n ns) && all_new ns

IsDistinct-of_all_new : (m : Prints) → all_new (names m) ≡ true → IsDistinct m
unfolding all_new
IsDistinct-of_all_new [] h = tt
IsDistinct-of_all_new ((n, v) ∷ m) h = elim (Option-cases (lookup n m)) [
  | inl new ↦ (new, IsDistinct-of_all_new m (ground arith))
  | inr (w, old) ↦
      let known : listed n (names m) ≡ true = listed-names n m ∙ ap has old in
      let no : false ≡ true = ground arith in cc
]

or_true : (a b : Bool) → b ≡ true → (a || b) ≡ true
or_true true b h = refl
or_true false b h = h

none_listed : (ns : List String) → ((n : String) → listed n ns ≡ false) → ns ≡ []
none_listed [] h = refl
none_listed (n ∷ ns) h = let no = h n in ground (arith, eq_refl n)

same_self : (o : Option String) → same_print o o ≡ true
same_self none = refl
same_self (some h) = eq_refl h

module _ (C : Codec) where
  hashed : State → Prints
  hashed d = map (λ e. (e.0, section_hash C e.1)) (sections d)

  hashed-IsDistinct : (d : State) → IsDistinct (hashed d)
  unfolding hashed all_new
  hashed-IsDistinct d = IsDistinct-of_all_new (hashed d) refl

  section_fingerprints-IsDistinct : (d : State) → IsDistinct (section_fingerprints C d)
  unfolding section_fingerprints hashed
  section_fingerprints-IsDistinct d =
      keep-IsDistinct (λ e. not (str_eq e.1 "")) (hashed d) (hashed-IsDistinct d)

  not_empty : (n : String) (o : Option String) → passing (λ e. not (str_eq e.1 "")) n o ≢ some ""
  not_empty n none h = cc
  not_empty n (some v) h = elim (Bool-cases (str_eq v "")) [
    | inl e ↦ let no : ◌≡◌ {A = Option String} none (some "") = rw e at h in cc
    | inr e ↦ ground (arith, eq_iff v "")
  ]

  section_fingerprints-filled :
      (d : State) (n : String) → lookup n (section_fingerprints C d) ≢ some ""
  unfolding section_fingerprints hashed
  section_fingerprints-filled d n h =
      not_empty n (lookup n (hashed d))
        (sym (lookup-keep (λ e. not (str_eq e.1 "")) n (hashed d) (hashed-IsDistinct d)) ∙ h)

  -- Between two states `changedSections` lists a name exactly when the fingerprints under it differ,
  -- or only one of the states has one.
  pub changed_sections_lem :
      (d d' : State) (n : String)
      → listed n (changed_sections (section_fingerprints C d) (section_fingerprints C d'))
        ≡ not (
            same_print (lookup n (section_fingerprints C d)) (lookup n (section_fingerprints C d')))
  changed_sections_lem d d' n =
      listed-changed_sections n (section_fingerprints C d) (section_fingerprints C d')
        (section_fingerprints-IsDistinct d) (section_fingerprints-IsDistinct d')
        (section_fingerprints-filled d' n)

  -- No section differs from the last fingerprints.
  abbrev pub IsSynced : Store C → Type 0
  IsSynced s = stays_same C s.last_sections (section_fingerprints C s.current) ≡ true

  pub own_sections :
      (d : State) → stays_same C (some (section_fingerprints C d)) (section_fingerprints C d) ≡ true
  own_sections d =
      rw
        (none_listed (changed_sections (section_fingerprints C d) (section_fingerprints C d)) λ n.
          changed_sections_lem d d n ∙ ap not (same_self (lookup n (section_fingerprints C d))))
        refl

  pub current-snapshot :
      (o : Outside) (bytes : C.Bytes) (changed : List String) (s : Store C)
      → (snapshot C o bytes changed s).current ≡ s.current
  unfolding snapshot
  current-snapshot o bytes changed s = elim (Bool-cases s.versioned) [
    | inl on ↦ rw on refl
    | inr off ↦ rw off refl
  ]

  maybe_snapshot-IsSynced :
      (o : Outside) (bytes : C.Bytes) (s : Store C)
      → s.versioned ≡ true
      → IsSynced (maybe_snapshot C o bytes s)
  unfolding maybe_snapshot
  maybe_snapshot-IsSynced o bytes s on =
      let cur = section_fingerprints C s.current in
      elim (Bool-cases (stays_same C s.last_sections cur)) [
        | inl still ↦
            let same : maybe_snapshot C o bytes s ≡ s = rw (on, still) refl in
            subst IsSynced (sym same) still
        | inr moved ↦
            let made = snapshot C o bytes (changed_sections (or_empty C s.last_sections) cur) s in
            let same : maybe_snapshot C o bytes s ≡ record made { last_sections = some cur } =
              rw (on, moved) refl in
            subst IsSynced (sym same) (
              rw (current-snapshot o bytes (changed_sections (or_empty C s.last_sections) cur) s)
                (own_sections s.current))
      ]

  save_bytes-IsSynced :
      (o : Outside) (bytes : Option C.Bytes) (s : Store C)
      → s.versioned ≡ true
      → (save_bytes C o bytes s).1 ≡ true
      → IsSynced (save_bytes C o bytes s).0
  unfolding save_bytes
  save_bytes-IsSynced o none s on h = cc
  save_bytes-IsSynced o (some bytes) s on h = elim (Bool-cases o.saves) [
    | inl saved ↦
        let s' : Store C = record s { state_file = some bytes } in
        let same : save_bytes C o (some bytes) s ≡ (maybe_snapshot C o bytes s', true) =
          simp (saved) in
        subst (λ x. IsSynced x.0) (sym same) (maybe_snapshot-IsSynced o bytes s' on)
    | inr failed ↦ let wrong : false ≡ true = rw failed at h in cc
  ]

  pub quiet_bytes :
      (o : Outside) (bytes : Option C.Bytes) (s : Store C)
      → IsSynced s
      → IsSynced (save_bytes C o bytes s).0 × ((save_bytes C o bytes s).0.files ≡ s.files)
  unfolding save_bytes maybe_snapshot
  quiet_bytes o none s synced = (synced, refl)
  quiet_bytes o (some bytes) s synced =
      let s' : Store C = record s { state_file = some bytes } in
      let stays = or_true (not s.versioned) _ synced in
      let same : maybe_snapshot C o bytes s' ≡ s' = rw stays refl in
      elim (Bool-cases o.saves) [
        | inl saved ↦
            let now : save_bytes C o (some bytes) s ≡ (maybe_snapshot C o bytes s', true) =
              simp (saved) in
            subst (λ x. IsSynced x.0 × (x.0.files ≡ s.files)) (sym now)
              (subst (λ t. IsSynced t × (t.files ≡ s.files)) (sym same) (synced, refl))
        | inr failed ↦
            let now : save_bytes C o (some bytes) s ≡ (s, false) = simp (failed) in
            subst (λ x. IsSynced x.0 × (x.0.files ≡ s.files)) (sym now) (synced, refl)
      ]

  -- A change of the state that keeps every fingerprint
  abbrev pub IsQuiet : Outside × (State → State) → Type 0
  IsQuiet (o, f) = (d : State) → section_fingerprints C (f d) ≡ section_fingerprints C d

  -- Several changes of the state, each saved
  unfoldable pub change_states : List (Outside × (State → State)) → Store C → Store C
  change_states [] s = s
  change_states ((o, f) ∷ more) s = change_states more (change_state C o f s).0

  quiet_changes :
      (changes : List (Outside × (State → State))) (s : Store C)
      → All IsQuiet changes
      → IsSynced s
      → (change_states changes s).files ≡ s.files
  unfolding change_states change_state save_locked
  quiet_changes [] s quiet synced = refl
  quiet_changes ((o, f) ∷ more) s (q, quiet) synced =
      let s' : Store C = record s { current = f s.current } in
      let synced' : IsSynced s' = rw (q s.current) synced in
      let (next, same) = quiet_bytes o (C.marshal s'.current) s' synced' in
      quiet_changes more (change_state C o f s).0 quiet next ∙ same

  -- After a save that succeeds, changes of the state that keep the fingerprints of all sections add
  -- and remove no version, however many there are and whether they are saved or not.
  pub quiet_changes_lem :
      (o : Outside) (s : Store C) (changes : List (Outside × (State → State)))
      → s.versioned ≡ true
      → (save_locked C o s).1 ≡ true
      → All IsQuiet changes
      → (change_states changes (save_locked C o s).0).files ≡ (save_locked C o s).0.files
  unfolding save_locked
  quiet_changes_lem o s changes on saved quiet =
      quiet_changes changes (save_locked C o s).0 quiet
        (save_bytes-IsSynced o (C.marshal s.current) s on saved)

  -- The audit trail, the services, the tokens of the API and the old address of the WAN are no section.
  pub unprinted :
      (d : State) (audit : List Event) (services wan : Json) (tokens : List Token)
      → section_fingerprints C
          (record d { audit = audit; services = services; wan_config = wan; api_tokens = tokens })
        ≡ section_fingerprints C d
  unfolding section_fingerprints
  unprinted d audit services wan tokens = refl
