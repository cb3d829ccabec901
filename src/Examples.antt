-- ===== src/Examples.antt =====
-- Concrete accounts, sessions, tokens and requests, and the theorems at them.
mod Limits
mod Access
mod Admins
mod Logins
mod Tokens
mod Subnets
mod Rules
mod Chains
mod Networks
mod Gateways
mod Alerts
mod Configs
mod Tunnels
mod Journal
mod Blocks
use sgsu.Prelude.{ℕ, Bool, true, false, Option, none, some, String, List, [], ◌∷◌, str_eq}
use sgsu.Limiter.{Limiter, Entry, second}
use sgsu.Users.{User}
use sgsu.Users.File.{FileUsers, file_users}
use sgsu.Sessions.{Session}
use sgsu.Sessions.File.{FileSessions, file_sessions}
use sgsu.App.{App, Token, Request, Caller, Primitives}

-- A hash and a password check that a test can run
abbrev pub toy : Primitives
toy = record {
  hash_token = λ s. s;
  verify_password = λ password phc. str_eq password phc;
  to_lower = λ s. s;
}

abbrev pub alice : User
alice = record {
  username = "alice";
  phc = "secret of alice";
  role = "admin";
  enabled = true;
  created_at = 1;
  must_change_password = false;
}

abbrev pub bob : User
bob = record {
  username = "bob";
  phc = "secret of bob";
  role = "admin";
  enabled = true;
  created_at = 2;
  must_change_password = false;
}

abbrev pub session_of_alice : Session
session_of_alice = record {
  token_hash = "cookie of alice";
  id = "cookie of alice";
  username = "alice";
  created_at = 5;
  expires_at = 1000;
  remote_ip = "10.0.0.9";
  csrf_hash = "csrf of alice";
}

abbrev pub accounts : FileUsers
accounts = record { items = ("alice", alice) ∷ ("bob", bob) ∷ []; disk = []; writes = [] }

abbrev pub sessions : FileSessions
sessions = record { items = ("cookie of alice", session_of_alice) ∷ []; disk = []; writes = [] }

-- Alice's address was locked until 500.
abbrev pub limiter : Limiter
limiter = record {
  entries = ("ip:10.0.0.66", record { failures = 6; locked_until = 500; last_seen = 10 }) ∷ [];
  free_attempts = 1;
  base = 30;
  cap = 900;
}

abbrev pub robot : Token
robot = record {
  id = "t1";
  name = "robot";
  role = "read-only";
  hash = "sgs_robot";
  preview = "sgs_robot";
  created_at = 1;
  created_by = "alice";
  expires_at = 0;
  last_used = 0;
}

abbrev pub appliance : App file_users file_sessions
appliance = record {
  users = accounts;
  sessions = sessions;
  ip_limiter = limiter;
  user_limiter = record { entries = []; free_attempts = 1; base = 30; cap = 900 };
  tokens = robot ∷ [];
  audit = [];
  admin_user = "admin";
  dummy_phc = "dummy";
  session_ttl = 600;
}

abbrev pub post : Request
post = record {
  method = "POST";
  path = "/api/users";
  remote_ip = "10.0.0.9";
  authorization = "";
  cookie = some "cookie of alice";
  csrf_header = "csrf of alice";
  now = 100;
  saves = true;
}

abbrev pub as_alice : Caller
as_alice = record { user = some alice; session = "cookie of alice"; by_token = false }

abbrev pub as_robot : Caller
as_robot = record {
  user = some (record {
    username = "token:robot";
    phc = "";
    role = "read-only";
    enabled = true;
    created_at = 0;
    must_change_password = false;
  });
  session = "";
  by_token = true;
}
