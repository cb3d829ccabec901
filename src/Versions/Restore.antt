-- ===== src/Versions/Restore.antt =====
-- A restoration brings back what a checkpoint saved.
use sgsu.Prelude.{
  ℕ, zero, suc, ◌-◌, true, false, not, ◌||◌, Option, none, some, String, List, [], ◌∷◌, ◌++◌,
  str_eq, length, take, drop, All, ◌≡◌, refl, arith, ap, ◌∙◌, sym, subst, Bool-cases, inl, inr,
  eq_iff, eq_refl, if◌then◌else◌,
}
use sgsu.Prelude.Integers.{pos, eq_int}
use sgsu.Prelude.Format.{decimal_text}
use sgsu.Prelude.Text.{trim_space}
use sgsu.Prelude.Table.{lookup}
use sgsu.Prelude.TextOrder.{precedes, precedes_irrefl}
use sgsu.App.{Event}
use sgsu.Versions.{
  State, Codec, Outside, Asker, whole, Version, Store, snapshot, maybe_snapshot, save_bytes,
  save_locked, section_fingerprints, last_action, stays_same, or_empty, changed_sections,
}
use sgsu.Versions.Requests.{
  restored_over, valid_version_id, labelled, add_audit, change_state, checkpoint_bytes,
  api_config_checkpoint, file_version, read_version, restore_state, restore_version,
  api_config_version_restore,
}
use sgsu.Versions.Directory.{IsAscending}
use sgsu.Versions.Bound.{snapshot_rotates}
use sgsu.Versions.Changes.{IsSynced, own_sections, current-snapshot, quiet_bytes, unprinted}

-- What is relied on of encoding/json: every state can be encoded, and is read back.
pub record CodecLaws (C : Codec) : Type 0 where
  pub bytes : State → C.Bytes
  pub writes : (d : State) → C.marshal d ≡ some (bytes d)
  pub reads : (d : State) → C.unmarshal (bytes d) ≡ some d

module _ {A : Type 0} where
  drop-before :
      (n : String) (k : ℕ) (d : List (String × A))
      → All (λ e. precedes e.0 n ≡ true) d
      → All (λ e. precedes e.0 n ≡ true) (drop k d)
  drop-before n zero d h = h
  drop-before n (suc k) [] h = tt
  drop-before n (suc k) (e ∷ d) (b, h) = drop-before n k d h

  lookup-last :
      (n : String) (f : A) (d : List (String × A))
      → All (λ e. precedes e.0 n ≡ true) d
      → lookup n (d ++ (n, f) ∷ []) ≡ some f
  unfolding lookup
  lookup-last n f [] h = rw (eq_refl n) refl
  lookup-last n f ((k, g) ∷ d) (b, h) = elim (Bool-cases (str_eq k n)) [
    | inl same ↦
        let is : k ≡ n = (eq_iff k n).0 same in
        let self : precedes n n ≡ true = subst (λ m. precedes m n ≡ true) is b in
        absurd (ground (arith, precedes_irrefl n))
    | inr other ↦ rw other (lookup-last n f d h)
  ]

module _ (C : Codec) where
  current-maybe_snapshot :
      (o : Outside) (bytes : C.Bytes) (s : Store C)
      → (maybe_snapshot C o bytes s).current ≡ s.current
  unfolding maybe_snapshot
  current-maybe_snapshot o bytes s =
      let cur = section_fingerprints C s.current in
      elim (Bool-cases (not s.versioned || stays_same C s.last_sections cur)) [
        | inl still ↦ rw still refl
        | inr moved ↦
            rw moved
              (current-snapshot C o bytes (changed_sections (or_empty C s.last_sections) cur) s)
      ]

  current-save_bytes :
      (o : Outside) (bytes : Option C.Bytes) (s : Store C)
      → (save_bytes C o bytes s).0.current ≡ s.current
  unfolding save_bytes
  current-save_bytes o none s = refl
  current-save_bytes o (some b) s = elim (Bool-cases o.saves) [
    | inl on ↦
        let s' : Store C = record s { state_file = some b } in
        let same : save_bytes C o (some b) s ≡ (maybe_snapshot C o b s', true) = simp (on) in
        ap (λ x. x.0.current) same ∙ current-maybe_snapshot o b s'
    | inr off ↦
        let same : save_bytes C o (some b) s ≡ (s, false) = simp (off) in ap (λ x. x.0.current) same
  ]

  save_locked-saves :
      (L : CodecLaws C) (o : Outside) (s : Store C) → o.saves ≡ true → (save_locked C o s).1 ≡ true
  unfolding save_locked save_bytes
  save_locked-saves L o s on = rw (L.writes s.current, on) refl

  current-change_state :
      (o : Outside) (f : State → State) (s : Store C)
      → (change_state C o f s).0.current ≡ f s.current
  unfolding change_state save_locked
  current-change_state o f s =
      current-save_bytes o (C.marshal (f s.current)) (record s { current = f s.current })

  current-add_audit :
      (o : Outside) (who : Asker) (a t r v : String) (audit : List Event) (s : Store C)
      → ◌≡◌ {A = State}
          (record (add_audit C o who a t r v s).current { audit = audit })
          (record s.current { audit = audit })
  unfolding add_audit save_locked
  current-add_audit o who a t r v audit s =
      ap (λ (d : State). record d { audit = audit }) (current-save_bytes o _ _)

  -- The state after a restoration that the save lets through
  restored_state :
      (L : CodecLaws C) (o later : Outside) (who : Asker) (id : String) (d : State) (s : Store C)
      → o.saves ≡ true
      → ((restore_state C o later who id (some d) s).1 ≡ 200)
        × (record (restore_state C o later who id (some d) s).0.current { audit = s.current.audit }
            ≡ restored_over s.current d)
  unfolding restore_state
  restored_state L o later who id d s on =
      let changed = change_state C o (λ live. restored_over live d) s in
      let saved : changed.1 ≡ true =
        unfold change_state in
        save_locked-saves L o (record s { current = restored_over s.current d }) on in
      let same : restore_state C o later who id (some d) s
          ≡ (add_audit C later who "config-restore" id "success" "security" changed.0, 200) =
        rw saved refl in
      (
        ap (λ x. x.1) same,
        ap (λ (x : Store C × ℕ). record x.0.current { audit = s.current.audit }) same
            ∙ current-add_audit later who "config-restore" id "success" "security" s.current.audit
                changed.0
            ∙ ap (λ (t : State). record t { audit = s.current.audit })
                (current-change_state o (λ live. restored_over live d) s)
            ∙ unfold restored_over in refl,
      )

  found_version :
      (o later : Outside) (who : Asker) (id : String) (v : Version C) (s : Store C)
      → valid_version_id id ≡ true
      → lookup id s.files ≡ some (some v)
      → api_config_version_restore C o later who id s
        ≡ restore_state C o later who id (C.unmarshal v.state) s
  unfolding api_config_version_restore restore_version read_version
  found_version o later who id v s valid found =
      let read : read_version C id s ≡ some v = ap (file_version C) found in rw (valid, read) refl

  checkpoint_files :
      (o later : Outside) (who : Asker) (text : String) (b : C.Bytes) (s : Store C)
      → (checkpoint_bytes C o later who text (some b) s).0.files
        ≡ (snapshot C o b (text ∷ []) s).files
  unfolding checkpoint_bytes add_audit save_locked
  checkpoint_files o later who text b s =
      let e : Event = record {
        time = later.now;
        severity = "info";
        actor = who.actor;
        action = "config-checkpoint";
        target = text;
        result = "success";
        remote_ip = who.remote_ip;
      } in
      let made = snapshot C o b (text ∷ []) s in
      let next : Store C = record made {
        last_sections = some (section_fingerprints C s.current);
        current = record made.current { audit = take 5000 (e ∷ made.current.audit) };
      } in
      let d = made.current in
      let prints : section_fingerprints C next.current ≡ section_fingerprints C s.current =
        unprinted C d next.current.audit d.services d.wan_config d.api_tokens
        ∙ ap (section_fingerprints C) (current-snapshot C o b (text ∷ []) s) in
      let synced : IsSynced C next =
        subst (λ cur. stays_same C (some (section_fingerprints C s.current)) cur ≡ true)
          (sym prints) (own_sections C s.current) in
      (quiet_bytes C later (C.marshal next.current) next synced).1

  -- A checkpoint whose file is written, under a name after those of all other versions, and a later
  -- restoration of it, whatever the state has become in between, as long as the file of the version is
  -- there as the checkpoint left it and state.json can be replaced: the restoration is answered 200,
  -- and apart from the audit trail the state is that of the checkpoint, its API tokens included. The
  -- services stay as they are, and so does the version number where the checkpoint had 0.
  pub restore-checkpoint :
      (L : CodecLaws C) (o later : Outside) (who : Asker) (label : String) (s : Store C)
      (o' later' : Outside) (who' : Asker) (s' : Store C)
      → s.versioned ≡ true
      → o.version_written ≡ whole
      → ((n : String) → o.removable n ≡ true)
      → IsAscending s.files
      → All (λ f. precedes f.0 (decimal_text o.now) ≡ true) s.files
      → valid_version_id (decimal_text o.now) ≡ true
      → lookup (decimal_text o.now) s'.files
        ≡ lookup (decimal_text o.now) (api_config_checkpoint C o later who label s).0.files
      → o'.saves ≡ true
      → ((api_config_version_restore C o' later' who' (decimal_text o.now) s').1 ≡ 200)
        × (record (api_config_version_restore C o' later' who' (decimal_text o.now) s').0.current {
          audit = s'.current.audit;
        }
            ≡ record s.current {
              audit = s'.current.audit;
              services = s'.current.services;
              version =
                  if eq_int s.current.version (pos 0)
                  then s'.current.version
                  else s.current.version;
            })
  unfolding api_config_checkpoint restored_over
  restore-checkpoint L o later who label s o' later' who' s' on w go asc after valid there saves =
      rw (found_version o' later' who' id v s' valid found, L.reads s.current)
        (restored_state L o' later' who' id s.current s' saves)
    where
      id : String
      id = decimal_text o.now

      text : String
      text = labelled C (trim_space label)

      v : Version C
      v = record {
        time = o.now;
        changed = text ∷ [];
        last_action = last_action C s.current.audit;
        state = L.bytes s.current;
      }

      found : lookup id s'.files ≡ some (some v)
      found =
          there
          ∙ rw (L.writes s.current) (
              ap (lookup id) (
                checkpoint_files o later who text (L.bytes s.current) s
                ∙ snapshot_rotates C o (L.bytes s.current) (text ∷ []) s on w go asc after)
              ∙ lookup-last id (some v) (drop (length s.files - 39) s.files)
                  (drop-before id (length s.files - 39) s.files after))
