-- ===== src/System.antt =====
-- cmd/saguaro/systemprofile.go: the deployment mode, next to the handlers of the firewall.
pub mod Mode
pub mod Names
pub mod Resolved
use sgsu.Prelude.{
  ℕ, Bool, true, false, not, ◌&&◌, ◌||◌, Option, none, some, String, List, [], ◌∷◌, str_eq,
  if◌then◌else◌,
}
use sgsu.Prelude.Text.{trim_space}
use sgsu.App.{Status}
use sgsu.Gateway.{GatewayApp, Around, get_gateway, add_event}
use sgsu.Gateway.Objects.{GatewayCall, gateway_step}
use sgsu.Gateway.Block.{Attached, Answers, api_firewall_block_ip, api_firewall_unblock_ip}

-- The stored mode, next to the state of the firewall
pub record SystemApp : Type 0 where
  pub firewall : GatewayApp
  pub profile : String

-- `validProfile`
abbrev pub valid_profile : String → Bool
valid_profile p = str_eq p "gateway" || str_eq p "router"

-- `getProfile`
unfoldable pub get_profile : SystemApp → String
get_profile s = if valid_profile s.profile then s.profile else "gateway"

-- `setProfile`: the memory changes even where the file cannot be written.
unfoldable pub set_profile : String → SystemApp → SystemApp
set_profile p s = record s { profile = p }

-- `seedProfile`, with the text of the installer's file where it can be read
unfoldable pub seed_profile : Option String → SystemApp → SystemApp
unfolding set_profile
seed_profile file s =
    let chosen : String = elim file [
      | none ↦ "gateway"
      | some text ↦ if valid_profile (trim_space text) then trim_space text else "gateway"
    ] in
    if valid_profile s.profile then s else set_profile chosen s

-- `apiSystemProfilePut`
unfoldable pub api_system_profile_put : Around → String → SystemApp → SystemApp × Status
unfolding set_profile get_gateway add_event
api_system_profile_put o p s =
    let changed = set_profile p s in
    if not (valid_profile p)
    then (s, 400)
    else if str_eq p "router" && (get_gateway s.firewall).gateway_enabled
    then (s, 409)
    else if not o.saves
    then (changed, 500)
    else (
      record changed {
        firewall = add_event o "system-profile" p "success" "warning" changed.firewall;
      },
      200,
    )

-- One request for the mode or for the firewall
pub data SystemCall : Type 0 where
  put_profile : String → SystemCall
  firewall_call : GatewayCall → SystemCall
  block_ip : Attached → Answers → String → SystemCall
  unblock_ip : Attached → Answers → String → SystemCall

-- What a request of the firewall meets: the mode is the one in the state.
abbrev pub in_mode : Around → SystemApp → Around
in_mode o s = record o { profile = get_profile s }

unfoldable pub system_step : Around → SystemCall → SystemApp → SystemApp
unfolding api_system_profile_put gateway_step api_firewall_block_ip api_firewall_unblock_ip
system_step o (put_profile p) s = (api_system_profile_put o p s).0
system_step o (firewall_call call) s = record s {
  firewall = (gateway_step (in_mode o s) call s.firewall).0;
}
system_step o (block_ip x w ip) s = record s {
  firewall = (api_firewall_block_ip (in_mode o s) x w ip s.firewall).0;
}
system_step o (unblock_ip x w ip) s = record s {
  firewall = (api_firewall_unblock_ip (in_mode o s) x w ip s.firewall).0;
}

-- The state after a sequence of requests
unfoldable pub system_run : List (Around × SystemCall) → SystemApp → SystemApp
unfolding system_step
system_run [] s = s
system_run ((o, call) ∷ more) s = system_run more (system_step o call s)
