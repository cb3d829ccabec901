-- ===== src/Versions/Requests.antt =====
-- cmd/saguaro/config_versions.go: the handlers of versions, and what other handlers do to the stored
-- state: they change it and save it.
use sgsu.Prelude.{
  Bool, true, not, ◌&&◌, Option, none, some, String, List, [], ◌∷◌, str_eq, leb, if◌then◌else◌,
  length, take, all,
}
use sgsu.Prelude.Integers.{pos, eq_int}
use sgsu.Prelude.Text.{codes, trim_space, is_digit}
use sgsu.Prelude.Format.{◌^^◌}
use sgsu.Prelude.Table.{lookup}
use sgsu.App.{Event, Status}
use sgsu.Versions.{
  State, Codec, Outside, Asker, Version, Store, shortened, snapshot, save_locked,
  section_fingerprints,
}

-- `versionIDRe`
abbrev pub valid_version_id : String → Bool
valid_version_id id =
    let cs = codes id in leb 1 (length cs) && (leb (length cs) 19 && all is_digit cs)

-- What a restoration puts in place of the state: the trail and the services stay.
unfoldable pub restored_over : State → State → State
restored_over live restored = record restored {
  audit = live.audit;
  services = live.services;
  version = if eq_int restored.version (pos 0) then live.version else restored.version;
}

module _ (C : Codec) where
  -- `recordSev` and `addAudit`, up to what is forwarded outside; a failed save is only logged.
  unfoldable pub add_audit :
      Outside → Asker → (action target result severity : String) → Store C → Store C
  add_audit o who action target result severity s =
      let e : Event = record {
        time = o.now;
        severity = severity;
        actor = who.actor;
        action = action;
        target = target;
        result = result;
        remote_ip = who.remote_ip;
      } in
      (save_locked C o
        (record s { current = record s.current { audit = take 5000 (e ∷ s.current.audit) } })).0

  -- A setter of a section such as `setVPN`: the state in memory is changed, then saved.
  unfoldable pub change_state : Outside → (State → State) → Store C → Store C × Bool
  change_state o f s = save_locked C o (record s { current = f s.current })

  abbrev baseline :
      Outside → Option C.Bytes → List (String × Option (Version C)) → Store C → Store C
  baseline o (some bytes) [] s = snapshot C o bytes ("početno stanje" ∷ []) s
  baseline o _ _ s = s

  -- `initVersions`, where the directory of the versions can be made
  unfoldable pub init_versions : Outside → Store C → Store C
  init_versions o s =
      baseline o (C.marshal s.current) s.files
        (record s { versioned = true; last_sections = some (section_fingerprints C s.current) })

  abbrev pub labelled : String → String
  labelled label =
      if str_eq label "" then "ručna kontrolna točka" else "kontrolna točka: " ^^ shortened label

  unfoldable pub checkpoint_bytes :
      Outside → Outside → Asker → (text : String) → Option C.Bytes → Store C → Store C × Status
  checkpoint_bytes o later who text none s = (s, 500)
  checkpoint_bytes o later who text (some bytes) s =
      let s' : Store C = record (snapshot C o bytes (text ∷ []) s) {
        last_sections = some (section_fingerprints C s.current);
      } in
      (add_audit later who "config-checkpoint" text "success" "info" s', 200)

  -- `apiConfigCheckpoint`; a body that cannot be decoded reads as the empty label. The second save is
  -- that of the audit trail.
  unfoldable pub api_config_checkpoint :
      Outside → Outside → Asker → (label : String) → Store C → Store C × Status
  unfolding checkpoint_bytes
  api_config_checkpoint o later who label s =
      checkpoint_bytes o later who (labelled (trim_space label)) (C.marshal s.current) s

  abbrev pub file_version : Option (Option (Version C)) → Option (Version C)
  file_version none = none
  file_version (some file) = file

  -- `readVersion`
  unfoldable pub read_version : String → Store C → Option (Version C)
  read_version id s = file_version (lookup id s.files)

  unfoldable pub restore_state :
      Outside → Outside → Asker → (id : String) → Option State → Store C → Store C × Status
  unfolding restored_over
  restore_state o later who id none s = (s, 422)
  restore_state o later who id (some restored) s =
      let (s', saved) = change_state o (λ live. restored_over live restored) s in
      if saved
      then (add_audit later who "config-restore" id "success" "security" s', 200)
      else (s', 500)

  unfoldable pub restore_version :
      Outside → Outside → Asker → (id : String) → Option (Version C) → Store C → Store C × Status
  unfolding restore_state
  restore_version o later who id none s = (s, 404)
  restore_version o later who id (some v) s = restore_state o later who id (C.unmarshal v.state) s

  -- `apiConfigVersionRestore`
  unfoldable pub api_config_version_restore :
      Outside → Outside → Asker → (id : String) → Store C → Store C × Status
  unfolding restore_version
  api_config_version_restore o later who id s =
      if not (valid_version_id id)
      then (s, 400)
      else restore_version o later who id (read_version id s) s

-- A change of the stored state and of its versions
pub data Call (C : Codec) : Type 0 where
  set : Outside → (State → State) → Call C
  audited : Outside → Asker → (action target result severity : String) → Call C
  checkpoint : Outside → Outside → Asker → (label : String) → Call C
  restore : Outside → Outside → Asker → (id : String) → Call C

unfoldable pub version_step : (C : Codec) → Call C → Store C → Store C
version_step C (set o f) s = (change_state C o f s).0
version_step C (audited o who a t r v) s = add_audit C o who a t r v s
version_step C (checkpoint o later who label) s = (api_config_checkpoint C o later who label s).0
version_step C (restore o later who id) s = (api_config_version_restore C o later who id s).0

-- Several changes, the first one first
unfoldable pub version_run : (C : Codec) → List (Call C) → Store C → Store C
unfolding version_step
version_run C [] s = s
version_run C (c ∷ cs) s = version_run C cs (version_step C c s)
