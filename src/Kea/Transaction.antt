-- ===== src/Kea/Transaction.antt =====
-- cmd/saguaro/dhcp.go, `keaSubnetTxn`: a change of the DHCP server's configuration, in steps that
-- the server answers one by one.
use sgsu.Prelude.{Bool, not, Option, none, some, if◌then◌else◌, ◌≡◌, ◌⊎◌}
use sgsu.Prelude.Json.{Json, object, Fields, get, set, as_object}

-- The DHCP server: its state and its answers to the commands of the control channel. `none` and
-- `false` are errors.
pub record Server : Type 1 where
  pub State : Type 0
  pub config_get : State → State × Option Json
  pub config_test : State → Json → State × Bool
  pub config_set : State → Json → State × Bool
  pub status_get : State → State × Bool
  pub config_write : State → State × Bool

-- The error that the transaction ends with
pub data Failure : Type 0 where
  get_failed : Failure
  no_dhcp4 : Failure
  refused : Failure
  test_failed : Failure
  set_failed : Failure
  rolled_back : Failure
  rollback_failed : Failure

-- The ends of the transaction
pub data Outcome (A : Type 0) : Type 0 where
  failed : Failure → Outcome A
  applied : A → Outcome A

module _ (K : Server) where
  -- After `config-set`: the check of the status, and the way back. A failed write is only logged.
  unfoldable pub verify : {A : Type 0} → Json → A → K.State → K.State × Outcome A
  verify backup result s =
      let (s1, up) = K.status_get s in
      let (s2, restored) = K.config_set s1 backup in
      if up
      then ((K.config_write s1).0, applied result)
      else (s2, failed (if restored then rolled_back else rollback_failed))

  -- After the change in memory: the test and the application
  unfoldable pub install : {A : Type 0} → Json → Json → A → K.State → K.State × Outcome A
  install backup cfg result s =
      let (s1, valid) = K.config_test s cfg in
      let (s2, done) = K.config_set s1 cfg in
      if not valid
      then (s1, failed test_failed)
      else if not done
      then (s2, failed set_failed)
      else verify backup result s2

  -- After the change in memory, which may refuse
  unfoldable pub apply_result :
      {A : Type 0} → (cfg dhcp4' : Fields) → Option A → K.State → K.State × Outcome A
  apply_result cfg dhcp4' none s = (s, failed refused)
  apply_result cfg dhcp4' (some a) s =
      install (object cfg) (object (set "Dhcp4" (object dhcp4') cfg)) a s

  -- The change of the `Dhcp4` object inside the configuration
  unfoldable pub change :
      {A : Type 0}
      → (Fields → Fields × Option A)
      → Fields
      → Option Fields
      → K.State
      → K.State × Outcome A
  change mutate cfg none s = (s, failed no_dhcp4)
  change mutate cfg (some dhcp4) s = apply_result cfg (mutate dhcp4).0 (mutate dhcp4).1 s

  -- After `config-get`
  unfoldable pub after_get :
      {A : Type 0} → (Fields → Fields × Option A) → Option Json → K.State → K.State × Outcome A
  after_get mutate (some (object cfg)) s = change mutate cfg (as_object (get "Dhcp4" cfg)) s
  after_get mutate _ s = (s, failed get_failed)

  -- `ConfigGetRaw` and the rest of `keaSubnetTxn`
  unfoldable pub kea_subnet_txn :
      {A : Type 0} → (Fields → Fields × Option A) → K.State → K.State × Outcome A
  kea_subnet_txn mutate s = after_get mutate (K.config_get s).1 (K.config_get s).0

-- What the server documents: only `config-set` changes the running configuration, and only where
-- it succeeds; `config-get` answers with the running one.
pub record ServerLaws (K : Server) : Type 0 where
  pub running : K.State → Json
  pub get_running : (s : K.State) → running (K.config_get s).0 ≡ running s
  pub get_answer : (s : K.State) (j : Json) → (K.config_get s).1 ≡ some j → j ≡ running s
  pub test_running : (s : K.State) (j : Json) → running (K.config_test s j).0 ≡ running s
  pub set_running :
      (s : K.State) (j : Json)
      → running (K.config_set s j).0 ≡ (if (K.config_set s j).1 then j else running s)
  pub status_running : (s : K.State) → running (K.status_get s).0 ≡ running s
  pub write_running : (s : K.State) → running (K.config_write s).0 ≡ running s

-- What the ends of the transaction promise of the running configuration
pub record Applied {A : Type 0} (mutate : Fields → Fields × Option A) (a : A) (before after : Json)
    : Type 0 where
  pub cfg : Fields
  pub dhcp4 : Fields
  pub was : before ≡ object cfg
  pub part : as_object (get "Dhcp4" cfg) ≡ some dhcp4
  pub result : (mutate dhcp4).1 ≡ some a
  pub becomes : after ≡ object (set "Dhcp4" (object (mutate dhcp4).0) cfg)

module _ {A : Type 0} (mutate : Fields → Fields × Option A) (before after : Json) where
  abbrev pub Settled : Outcome A → Type 0
  Settled (failed f) = (f ≡ rollback_failed) ⊎ (after ≡ before)
  Settled (applied a) = Applied mutate a before after
