-- ===== src/Examples/Access.antt =====
-- The theorems on authentication and permissions at concrete requests.
use sgsu.Prelude.{
  false, List, [], ◌∷◌, ◌≡◌, ◌⊎◌, inl, refl, true, none, some, String, str_eq, if◌then◌else◌, arith,
}
use sgsu.Users.{User}
use sgsu.Prelude.Table.{lookup}
use sgsu.Users.File.{file_users_laws, file_get}
use sgsu.Sessions.{Rows}
use sgsu.Sessions.File.{FileSessions, file_sessions, get, delete}
use sgsu.Sessions.Runs.{
  Operation, creates, deletes_id, prunes, perform_all, DoesAll, file_sessions_refines,
}
use sgsu.Sessions.Laws.{file_sessions_laws}
use sgsu.App.{Caller}
use sgsu.Tokens.{bearer_token}
use sgsu.Auth.{auth, authz, pass, deny, users_write, role_allows}
use sgsu.Auth.Gate.{auth_sound, ByToken, BySession}
use sgsu.Auth.Refusals.{authz_cases, auth_dead_session}
use sgsu.Examples.{toy, appliance, post, as_alice, session_of_alice, sessions}

auth_sound_example :
    ByToken toy appliance.tokens post as_alice
    ⊎ ((bearer_token post.authorization ≡ "")
        × BySession toy file_users_laws file_sessions_laws appliance post as_alice
        × ((auth toy appliance post).0 ≡ appliance))
unfolding auth bearer_token get lookup file_get
auth_sound_example = auth_sound toy file_users_laws file_sessions_laws appliance post as_alice refl

authz_cases_example :
    ((c : Caller) × (u : User) × ((auth toy appliance post).1 ≡ pass c)
      × (c.user ≡ some u)
      × (role_allows u.role users_write ≡ true)
      × (authz toy users_write (λ a c. (a, 204)) appliance post
          ≡ ((auth toy appliance post).0, 204)))
    ⊎ ((authz toy users_write (λ a c. (a, 204)) appliance post).0.users ≡ appliance.users)
authz_cases_example = authz_cases toy users_write (λ a c. (a, 204)) appliance post

auth_dead_session_example :
    ((auth toy appliance (record post { now = 2000 })).1 ≡ deny 401)
    × ((k : String)
        → file_sessions_laws.rows (auth toy appliance (record post { now = 2000 })).0.sessions k ≡ (
            if str_eq "cookie of alice" k
            then none
            else file_sessions_laws.rows appliance.sessions k))
    × (((auth toy (auth toy appliance (record post { now = 2000 })).0 post).1 ≡ deny 401)
        ⊎ ((auth toy (auth toy appliance (record post { now = 2000 })).0 post).1 ≡ deny 500))
unfolding bearer_token get lookup delete
auth_dead_session_example =
    auth_dead_session toy file_sessions_laws appliance
      (auth toy appliance (record post { now = 2000 })).0 (record post { now = 2000 }) post
      "cookie of alice" session_of_alice refl refl refl (inl (omega arith)) refl refl refl refl

-- The file takes only the second of three writes.
abbrev flaky : FileSessions
flaky = record sessions { writes = false ∷ true ∷ false ∷ [] }

abbrev operations : List Operation
operations =
    creates (record session_of_alice { token_hash = "another"; id = "another" })
    ∷ deletes_id "cookie of alice"
    ∷ prunes 2000
    ∷ []

file_sessions_refines_example :
    (rows : Rows) × DoesAll operations (λ k. lookup k flaky.items) rows
    × ((k : String) → file_sessions.get (perform_all operations flaky) k ≡ some (rows k))
unfolding lookup
file_sessions_refines_example = file_sessions_refines operations flaky (refl, tt)
