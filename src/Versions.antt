-- ===== src/Versions.antt =====
-- cmd/saguaro/config_versions.go, with `state` and `saveLocked` of cmd/saguaro/main.go: the snapshots
-- of the configuration and their restoration.
pub mod Requests
pub mod Directory
pub mod Bound
pub mod Changes
pub mod Restore
use sgsu.Prelude.{
  ℕ, ◌-◌, Bool, true, false, not, ◌&&◌, ◌||◌, Option, none, some, String, List, [], ◌∷◌, ◌++◌,
  str_eq, ltb, leb, ◌==◌, if◌then◌else◌, length, take, keep, map, all,
}
use Prim.Native.Nat.{zero}
use Prim.Native.String.{len, slice}
use sgsu.Prelude.Integers.{ℤ, pos, eq_int}
use sgsu.Prelude.Text.{codes, trim_space, is_digit}
use sgsu.Prelude.Format.{◌^^◌, decimal_text, sort_texts}
use sgsu.Prelude.Table.{lookup}
use sgsu.Prelude.TextOrder.{precedes}
use sgsu.Prelude.Json.{Json}
use sgsu.App.{Event, Token, Status}

-- `state`: each section that only its own page reads is the JSON value that it is encoded to.
pub record State : Type 0 where
  pub version : ℤ
  pub services : Json
  pub audit : List Event
  pub mail : Json
  pub gateway : Json
  pub ids : Json
  pub rpz : Json
  pub proxy_apps : Json
  pub certs : Json
  pub vpn : Json
  pub openvpn : Json
  pub backup : Json
  pub multi_wan : Json
  pub routes : Json
  pub s2s : Json
  pub ipsec : Json
  pub system_profile : Json
  pub blocked_macs : Json
  pub wan_config : Json
  pub wan_configs : Json
  pub siem : Json
  pub web_proxy : Json
  pub nic_labels : Json
  pub split_dns : Json
  pub dns_forward : Json
  pub api_tokens : List Token

-- What is called of encoding/json and crypto/sha256: a state as bytes and back, the text of one
-- section (empty where it cannot be encoded), and the first eight bytes of its SHA-256 in hex.
pub record Codec : Type 1 where
  pub Bytes : Type 0
  pub marshal : State → Option Bytes
  pub unmarshal : Bytes → Option State
  pub section_text : Json → String
  pub section_sum : String → String

-- What a write of a version's file leaves: the file, nothing, or a file that cannot be read.
pub data Written : Type 0 where
  whole : Written
  nothing : Written
  partial : Written

-- What one save meets outside: the time, whether state.json can be replaced, what becomes of the file
-- of a version, and which files can be removed.
pub record Outside : Type 0 where
  pub now : ℕ
  pub saves : Bool
  pub version_written : Written
  pub removable : String → Bool

-- Who asks, and from where
pub record Asker : Type 0 where
  pub actor : String
  pub remote_ip : String

-- Fingerprints by the name of the section
abbrev pub Prints : Type 0
Prints = List (String × String)

-- `maxConfigVersions`
abbrev pub max_config_versions : ℕ
max_config_versions = 40

-- The sections with their names, in `sectionFingerprints`
abbrev pub sections : State → List (String × Json)
sections d =
    ("Pošta (mail)", d.mail)
    ∷ ("Vatrozid/Gateway", d.gateway)
    ∷ ("IDS/IPS", d.ids)
    ∷ ("DNS filtriranje", d.rpz)
    ∷ ("Reverse proxy", d.proxy_apps)
    ∷ ("Certifikati", d.certs)
    ∷ ("WireGuard VPN", d.vpn)
    ∷ ("OpenVPN", d.openvpn)
    ∷ ("Backup", d.backup)
    ∷ ("Multi-WAN", d.multi_wan)
    ∷ ("Rute", d.routes)
    ∷ ("Site-to-site VPN", d.s2s)
    ∷ ("IPsec", d.ipsec)
    ∷ ("Profil sustava", d.system_profile)
    ∷ ("Blokirani MAC-ovi", d.blocked_macs)
    ∷ ("WAN adresiranje", d.wan_configs)
    ∷ ("SIEM", d.siem)
    ∷ ("Web proxy", d.web_proxy)
    ∷ ("Oznake sučelja", d.nic_labels)
    ∷ ("Split-horizon DNS", d.split_dns)
    ∷ ("Šifrirani DNS upstream", d.dns_forward)
    ∷ []

abbrev is_missing {ℓ} : {A : Type ℓ} → Option A → Bool
is_missing none = true
is_missing (some _) = false

abbrev value_of : Option String → String
value_of none = ""
value_of (some h) = h

abbrev pub names {ℓ} : {A : Type ℓ} → List (String × A) → List String
names [] = []
names ((n, _) ∷ m) = n ∷ names m

-- The names of the sections that the two loops of `changedSections` meet. A name that the first
-- loop has listed is a key of the new map, so the second loop skips it.
unfoldable pub differing : Prints → Prints → List String
differing prev cur =
    names (keep (λ e. not (str_eq (value_of (lookup e.0 prev)) e.1)) cur)
    ++ names (keep (λ e. is_missing (lookup e.0 cur)) prev)

-- `changedSections`
unfoldable pub changed_sections : Prints → Prints → List String
unfolding differing
changed_sections prev cur = sort_texts (differing prev cur)

-- A label of a checkpoint after `truncate`: a character that the cut at 60 bytes would split is left
-- out.
abbrev pub shortened : String → String
shortened s = if leb (len s) 60 then s else slice s zero 60 ^^ "…"

-- The directory of the versions, by ascending names: `Glob` lists it, and `WriteFile` replaces a file.
unfoldable pub put_file {ℓ} : {A : Type ℓ} → String → A → List (String × A) → List (String × A)
put_file n f [] = (n, f) ∷ []
put_file n f ((m, g) ∷ d) =
    let later = put_file n f d in
    if str_eq m n then (n, f) ∷ d else if precedes m n then (m, g) ∷ later else (n, f) ∷ (m, g) ∷ d

-- `os.Remove` of one file, where it can be removed
unfoldable pub remove_file {ℓ} :
    {A : Type ℓ} → (String → Bool) → String → List (String × A) → List (String × A)
remove_file removable n d = keep (λ e. not (str_eq e.0 n && removable n)) d

unfoldable pub remove_files {ℓ} :
    {A : Type ℓ} → (String → Bool) → List String → List (String × A) → List (String × A)
remove_files removable [] d = d
remove_files removable (n ∷ ns) d = remove_files removable ns (remove_file removable n d)

-- `pruneVersionsLocked`
unfoldable pub prune_versions {ℓ} :
    {A : Type ℓ} → (String → Bool) → List (String × A) → List (String × A)
prune_versions removable d =
    if leb (length (names d)) max_config_versions
    then d
    else remove_files removable
        (take (length (names d) - max_config_versions) (sort_texts (names d))) d

module _ (C : Codec) where
  -- `configVersion`
  pub record Version : Type 0 where
    pub time : ℕ
    pub changed : List String
    pub last_action : String
    pub state : C.Bytes

  -- `store`, with the contents of state.json and of the directory of the versions. A file that is no
  -- version reads as none.
  pub record Store : Type 0 where
    pub current : State
    pub state_file : Option C.Bytes
    pub versioned : Bool
    pub last_sections : Option Prints
    pub files : List (String × Option Version)

  -- `sectionHash`
  abbrev pub section_hash : Json → String
  section_hash v =
      let s = C.section_text v in
      if str_eq s "null" || str_eq s "[]" || str_eq s "{}" || str_eq s ""
      then ""
      else C.section_sum s

  -- `sectionFingerprints`
  unfoldable pub section_fingerprints : State → Prints
  section_fingerprints d =
      keep (λ e. not (str_eq e.1 "")) (map (λ e. (e.0, section_hash e.1)) (sections d))

  -- `LastAction` of a version
  abbrev pub last_action : List Event → String
  last_action [] = ""
  last_action (e ∷ _) =
      let said = trim_space (e.actor ^^ (" · " ^^ e.action)) in
      if str_eq e.target "" then said else said ^^ (" (" ^^ (e.target ^^ ")"))

  -- The directory after `WriteFile` of one version
  abbrev pub write_version :
      Written
      → String
      → Version
      → (String → Bool)
      → List (String × Option Version)
      → List (String × Option Version)
  write_version whole id v removable d = prune_versions removable (put_file id (some v) d)
  write_version nothing id v removable d = d
  write_version partial id v removable d = put_file id none d

  -- `snapshotLocked`
  unfoldable pub snapshot : Outside → C.Bytes → List String → Store → Store
  snapshot o bytes changed s =
      let v : Version = record {
        time = o.now;
        changed = changed;
        last_action = last_action s.current.audit;
        state = bytes;
      } in
      if not s.versioned then s else record s {
        files = write_version o.version_written (decimal_text o.now) v o.removable s.files;
      }

  abbrev stays_same : Option Prints → Prints → Bool
  stays_same none cur = false
  stays_same (some last) cur = length (changed_sections last cur) == 0

  abbrev pub or_empty : Option Prints → Prints
  or_empty none = []
  or_empty (some last) = last

  -- `maybeSnapshotLocked`
  unfoldable pub maybe_snapshot : Outside → C.Bytes → Store → Store
  maybe_snapshot o bytes s =
      let cur = section_fingerprints s.current in
      if not s.versioned || stays_same s.last_sections cur
      then s
      else record (snapshot o bytes (changed_sections (or_empty s.last_sections) cur) s) {
        last_sections = some cur;
      }

  unfoldable pub save_bytes : Outside → Option C.Bytes → Store → Store × Bool
  save_bytes o none s = (s, false)
  save_bytes o (some bytes) s =
      if o.saves
      then (maybe_snapshot o bytes (record s { state_file = some bytes }), true)
      else (s, false)

  -- `saveLocked`, and whether it succeeds
  unfoldable pub save_locked : Outside → Store → Store × Bool
  unfolding save_bytes
  save_locked o s = save_bytes o (C.marshal s.current) s
