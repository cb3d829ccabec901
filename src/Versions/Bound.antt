-- ===== src/Versions/Bound.antt =====
-- How many versions are kept, and which.
use sgsu.Prelude.{
  ℕ, zero, suc, ◌-◌, ◌≤◌, Bool, true, false, not, if◌then◌else◌, ◌||◌, Option, none, some, String,
  List, [], ◌∷◌, ◌++◌, length, drop, All, ◌≡◌, ◌≢◌, refl, arith, ap, ◌∙◌, Bool-cases, inl, inr,
  length-append,
}
use sgsu.Prelude.Format.{decimal_text}
use sgsu.Prelude.TextOrder.{precedes}
use sgsu.Versions.{
  State, Codec, Outside, Asker, Written, whole, nothing, partial, Version, Store, put_file,
  prune_versions, write_version, snapshot, maybe_snapshot, save_bytes, save_locked, stays_same,
  section_fingerprints, last_action, max_config_versions,
}
use sgsu.Versions.Requests.{
  restored_over, valid_version_id, Call, set, audited, checkpoint, restore, add_audit, change_state,
  api_config_checkpoint, checkpoint_bytes, restore_state, restore_version,
  api_config_version_restore, read_version, version_step, version_run,
}
use sgsu.Versions.Directory.{
  IsAscending, last_versions, put_file-IsAscending, put_file-last, prune_versions_lem,
  length-prune_versions, prune_versions-IsAscending,
}

-- Every file can be removed, and the write of a version's file leaves no half of it.
abbrev pub Fits : Outside → Type 0
Fits o = ((n : String) → o.removable n ≡ true) × (o.version_written ≢ partial)

module _ (C : Codec) where
  abbrev pub IsBounded : Store C → Type 0
  IsBounded s = IsAscending s.files × (length s.files ≤ max_config_versions)

  -- Every save of the call fits.
  abbrev pub CallFits : Call C → Type 0
  CallFits (set o f) = Fits o
  CallFits (audited o who a t r v) = Fits o
  CallFits (checkpoint o later who label) = Fits o × Fits later
  CallFits (restore o later who id) = Fits o × Fits later

  written-IsBounded :
      (w : Written) (id : String) (v : Version C) (removable : String → Bool)
      (d : List (String × Option (Version C)))
      → ((n : String) → removable n ≡ true)
      → w ≢ partial
      → IsAscending d
      → length d ≤ max_config_versions
      → IsAscending (write_version C w id v removable d)
        × (length (write_version C w id v removable d) ≤ max_config_versions)
  written-IsBounded whole id v removable d all_go h o b =
      let o' = put_file-IsAscending id (some v) d o in
      (
        prune_versions-IsAscending removable (put_file id (some v) d) all_go o',
        length-prune_versions removable (put_file id (some v) d) all_go o',
      )
  written-IsBounded nothing id v removable d all_go h o b = (o, b)
  written-IsBounded partial id v removable d all_go h o b = absurd (h refl)

  snapshot-IsBounded :
      (o : Outside) (bytes : C.Bytes) (changed : List String) (s : Store C)
      → Fits o
      → IsBounded s
      → IsBounded (snapshot C o bytes changed s)
  unfolding snapshot
  snapshot-IsBounded o bytes changed s (go, w) (asc, b) = elim (Bool-cases s.versioned) [
    | inl on ↦ rw on (written-IsBounded o.version_written _ _ o.removable s.files go w asc b)
    | inr off ↦ rw off (asc, b)
  ]

  maybe_snapshot-IsBounded :
      (o : Outside) (bytes : C.Bytes) (s : Store C)
      → Fits o
      → IsBounded s
      → IsBounded (maybe_snapshot C o bytes s)
  unfolding maybe_snapshot
  maybe_snapshot-IsBounded o bytes s fits b =
      elim (Bool-cases
        (not s.versioned || stays_same C s.last_sections (section_fingerprints C s.current))) [
          | inl still ↦ rw still b
          | inr moved ↦ rw moved (snapshot-IsBounded o bytes _ s fits b)
        ]

  if_IsBounded :
      {B : Type 0} (test : Bool) (x y : Store C × B)
      → IsBounded x.0
      → IsBounded y.0
      → IsBounded (if test then x else y).0
  if_IsBounded true x y h k = h
  if_IsBounded false x y h k = k

  save_bytes-IsBounded :
      (o : Outside) (bytes : Option C.Bytes) (s : Store C)
      → Fits o
      → IsBounded s
      → IsBounded (save_bytes C o bytes s).0
  unfolding save_bytes
  save_bytes-IsBounded o none s fits b = b
  save_bytes-IsBounded o (some bytes) s fits b =
      let s' : Store C = record s { state_file = some bytes } in
      if_IsBounded o.saves (maybe_snapshot C o bytes s', true) (s, false)
        (maybe_snapshot-IsBounded o bytes s' fits b) b

  add_audit-IsBounded :
      (o : Outside) (who : Asker) (a t r v : String) (s : Store C)
      → Fits o
      → IsBounded s
      → IsBounded (add_audit C o who a t r v s)
  unfolding add_audit save_locked
  add_audit-IsBounded o who a t r v s fits b = save_bytes-IsBounded o _ _ fits b

  change_state-IsBounded :
      (o : Outside) (f : State → State) (s : Store C)
      → Fits o
      → IsBounded s
      → IsBounded (change_state C o f s).0
  unfolding change_state save_locked
  change_state-IsBounded o f s fits b = save_bytes-IsBounded o _ _ fits b

  checkpoint-IsBounded :
      (o later : Outside) (who : Asker) (text : String) (bytes : Option C.Bytes) (s : Store C)
      → Fits o
      → Fits later
      → IsBounded s
      → IsBounded (checkpoint_bytes C o later who text bytes s).0
  unfolding checkpoint_bytes
  checkpoint-IsBounded o later who text none s fits fits' b = b
  checkpoint-IsBounded o later who text (some bytes) s fits fits' b =
      add_audit-IsBounded later who _ _ _ _ _ fits'
        (snapshot-IsBounded o bytes (text ∷ []) s fits b)

  restore_state-IsBounded :
      (o later : Outside) (who : Asker) (id : String) (restored : Option State) (s : Store C)
      → Fits o
      → Fits later
      → IsBounded s
      → IsBounded (restore_state C o later who id restored s).0
  unfolding restore_state
  restore_state-IsBounded o later who id none s fits fits' b = b
  restore_state-IsBounded o later who id (some d) s fits fits' b =
      let changed = change_state C o (λ live. restored_over live d) s in
      let kept = change_state-IsBounded o (λ live. restored_over live d) s fits b in
      if_IsBounded changed.1
        (add_audit C later who "config-restore" id "success" "security" changed.0, 200)
        (changed.0, 500) (add_audit-IsBounded later who _ _ _ _ changed.0 fits' kept) kept

  restore_version-IsBounded :
      (o later : Outside) (who : Asker) (id : String) (v : Option (Version C)) (s : Store C)
      → Fits o
      → Fits later
      → IsBounded s
      → IsBounded (restore_version C o later who id v s).0
  unfolding restore_version
  restore_version-IsBounded o later who id none s fits fits' b = b
  restore_version-IsBounded o later who id (some v) s fits fits' b =
      restore_state-IsBounded o later who id (C.unmarshal v.state) s fits fits' b

  step-IsBounded :
      (c : Call C) (s : Store C) → CallFits c → IsBounded s → IsBounded (version_step C c s)
  unfolding version_step api_config_checkpoint api_config_version_restore
  step-IsBounded (set o f) s fits b = change_state-IsBounded o f s fits b
  step-IsBounded (audited o who a t r v) s fits b = add_audit-IsBounded o who a t r v s fits b
  step-IsBounded (checkpoint o later who label) s (fits, fits') b =
      checkpoint-IsBounded o later who _ _ s fits fits' b
  step-IsBounded (restore o later who id) s (fits, fits') b =
      let found = restore_version C o later who id (read_version C id s) s in
      if_IsBounded (not (valid_version_id id)) (s, 400) found b
        (restore_version-IsBounded o later who id (read_version C id s) s fits fits' b)

  -- Whatever changes the state, with whatever outcome, as long as every file of a version can be
  -- removed and no write leaves half of one: from a directory in ascending order with at most 40
  -- versions on, there are at most 40, in ascending order.
  pub version_run-IsBounded :
      (calls : List (Call C)) (s : Store C)
      → All CallFits calls
      → IsBounded s
      → IsBounded (version_run C calls s)
  unfolding version_run
  version_run-IsBounded [] s fits b = b
  version_run-IsBounded (c ∷ cs) s (fit, fits) b =
      version_run-IsBounded cs (version_step C c s) fits (step-IsBounded c s fit b)

  length-put_last :
      (id : String) (f : Option (Version C)) (d : List (String × Option (Version C)))
      → length (d ++ (id, f) ∷ []) ≡ suc (length d)
  length-put_last id f d = omega (arith, length-append d ((id, f) ∷ []))

  drop-append_one :
      (k : ℕ) (e : String × Option (Version C)) (d : List (String × Option (Version C)))
      → k ≤ length d
      → drop k (d ++ e ∷ []) ≡ drop k d ++ e ∷ []
  drop-append_one zero e d h = refl
  drop-append_one (suc k) e [] h = absurd (omega arith)
  drop-append_one (suc k) e (f ∷ d) h = drop-append_one k e d (omega arith)

  -- A version whose file is written whole, under a name after all others: it stands last, before it
  -- the 39 last of the others, and no others, where every file can be removed.
  pub snapshot_rotates :
      (o : Outside) (bytes : C.Bytes) (changed : List String) (s : Store C)
      → s.versioned ≡ true
      → o.version_written ≡ whole
      → ((n : String) → o.removable n ≡ true)
      → IsAscending s.files
      → All (λ f. precedes f.0 (decimal_text o.now) ≡ true) s.files
      → (snapshot C o bytes changed s).files
        ≡ drop (length s.files - 39) s.files
          ++ (
            decimal_text o.now,
            some (record {
              time = o.now;
              changed = changed;
              last_action = last_action C s.current.audit;
              state = bytes;
            }),
          )
            ∷ []
  unfolding snapshot
  snapshot_rotates o bytes changed s on w go asc after = rw (on, w) rotated
    where
      v : Version C
      v = record {
        time = o.now;
        changed = changed;
        last_action = last_action C s.current.audit;
        state = bytes;
      }

      id : String
      id = decimal_text o.now

      rotated :
          prune_versions o.removable (put_file id (some v) s.files)
          ≡ drop (length s.files - 39) s.files ++ (id, some v) ∷ []
      rotated =
          prune_versions_lem o.removable (put_file id (some v) s.files) go
            (put_file-IsAscending id (some v) s.files asc)
          ∙ ap last_versions (put_file-last id (some v) s.files after)
          ∙ rw (length-put_last id (some v) s.files) (
              drop-append_one (suc (length s.files) - 40) (id, some v) s.files (omega arith)
              ∙ ap (λ k. drop k s.files ++ (id, some v) ∷ []) (omega arith))
