-- ===== src/Examples/Configs.antt =====
-- The theorems on versions of the configuration at a concrete store.
use sgsu.Prelude.{ℕ, true, none, some, String, List, [], ◌∷◌, ◌≡◌, refl, arith, if◌then◌else◌}
use sgsu.Prelude.Integers.{pos, eq_int}
use sgsu.Prelude.Format.{sort_texts}
use sgsu.Prelude.Table.{lookup}
use sgsu.Prelude.Text.{trim_space}
use sgsu.Prelude.TextOrder.{precedes}
use sgsu.Prelude.Json.{Json, null, string, list, object, end, empty}
use sgsu.Firewall.Objects.{listed}
use sgsu.Versions.{
  State, Codec, Outside, Asker, whole, Version, Store, put_file, prune_versions, snapshot,
  maybe_snapshot, save_bytes, save_locked, section_fingerprints, changed_sections, differing,
}
use sgsu.Versions.Requests.{
  Call, set, checkpoint, add_audit, change_state, checkpoint_bytes, api_config_checkpoint,
  api_config_version_restore, version_run,
}
use sgsu.Versions.Bound.{IsBounded, Fits, version_run-IsBounded}
use sgsu.Versions.Changes.{changed_sections_lem, change_states, quiet_changes_lem, unprinted}
use sgsu.Versions.Restore.{CodecLaws, restore-checkpoint}
use sgsu.Examples.{robot}

abbrev section_text : Json → String
section_text null = "null"
section_text (list end) = "[]"
section_text (object empty) = "{}"
section_text (string s) = s
section_text _ = "other"

abbrev codec : Codec
codec = record {
  Bytes = State;
  marshal = some;
  unmarshal = some;
  section_text = section_text;
  section_sum = λ s. s;
}

laws : CodecLaws codec
laws = record { bytes = λ d. d; writes = λ d. refl; reads = λ d. refl }

abbrev config : State
config = record {
  version = pos 1;
  services = null;
  audit = [];
  mail = null;
  gateway = string "wan0";
  ids = null;
  rpz = null;
  proxy_apps = list end;
  certs = list end;
  vpn = null;
  openvpn = null;
  backup = null;
  multi_wan = null;
  routes = null;
  s2s = null;
  ipsec = null;
  system_profile = string "gateway";
  blocked_macs = list end;
  wan_config = null;
  wan_configs = list end;
  siem = null;
  web_proxy = null;
  nic_labels = object empty;
  split_dns = list end;
  dns_forward = null;
  api_tokens = robot ∷ [];
}

abbrev version_of : ℕ → State → Version codec
version_of t d = record { time = t; changed = "IPsec" ∷ []; last_action = ""; state = d }

abbrev configs : Store codec
configs = record {
  current = config;
  state_file = none;
  versioned = true;
  last_sections = none;
  files = ("1001", some (version_of 1001 config)) ∷ ("1002", none) ∷ [];
}

abbrev at : ℕ → Outside
at t = record { now = t; saves = true; version_written = whole; removable = λ n. true }

abbrev admin : Asker
admin = record { actor = "alice"; remote_ip = "10.0.0.9" }

at-Fits : (t : ℕ) → Fits (at t)
at-Fits t = (λ n. refl, λ e. cc)

abbrev without_tokens : State → State
without_tokens d = record d { api_tokens = [] }

abbrev with_routes : State → State
with_routes d = record d { routes = string "default" }

abbrev calls : List (Call codec)
calls = set (at 1003) with_routes ∷ checkpoint (at 1004) (at 1005) admin "before the move" ∷ []

version_run-IsBounded_example : IsBounded codec (version_run codec calls configs)
unfolding precedes
version_run-IsBounded_example =
    version_run-IsBounded codec calls configs (at-Fits 1003, ((at-Fits 1004, at-Fits 1005), tt))
      (((refl, tt), (tt, tt)), omega arith)

changed_sections_lem_example :
    listed "Rute" (
      changed_sections
        (section_fingerprints codec config)
        (section_fingerprints codec (with_routes config)))
    ≡ true
unfolding section_fingerprints lookup
changed_sections_lem_example = changed_sections_lem codec config (with_routes config) "Rute"

quiet_changes_lem_example :
    (change_states codec
      ((at 1004, without_tokens) ∷ [])
      (save_locked codec (at 1003) configs).0).files
    ≡ (save_locked codec (at 1003) configs).0.files
unfolding save_locked save_bytes
quiet_changes_lem_example =
    quiet_changes_lem codec (at 1003) configs ((at 1004, without_tokens) ∷ []) refl refl
      (λ d. unprinted codec d d.audit d.services d.wan_config [], tt)

abbrev later_store : Store codec
later_store =
    (change_state codec (at 1005) (λ d. without_tokens (with_routes d))
      (api_config_checkpoint codec (at 1003) (at 1004) admin "before the move" configs).0).0

-- The token that was revoked after the checkpoint is back.
restore-checkpoint_example :
    ((api_config_version_restore codec (at 1006) (at 1007) admin "1003" later_store).1 ≡ 200)
    × (record (api_config_version_restore codec
          (at 1006)
          (at 1007)
          admin
          "1003"
          later_store).0.current { audit = later_store.current.audit }
        ≡ record config {
          audit = later_store.current.audit;
          services = later_store.current.services;
          version =
              if eq_int config.version (pos 0) then later_store.current.version else config.version;
        })
unfolding precedes lookup change_state save_locked save_bytes maybe_snapshot snapshot put_file
    prune_versions section_fingerprints changed_sections differing api_config_checkpoint
    checkpoint_bytes add_audit trim_space sort_texts
restore-checkpoint_example =
    restore-checkpoint codec laws (at 1003) (at 1004) admin "before the move" configs (at 1006)
      (at 1007) admin later_store refl refl (λ n. refl) ((refl, tt), (tt, tt)) (refl, (refl, tt))
      refl refl refl
