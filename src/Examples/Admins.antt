-- ===== src/Examples/Admins.antt =====
-- The theorems on accounts at concrete requests.
use sgsu.Prelude.{refl, true, false, some, none, List, [], ◌∷◌}
use sgsu.Prelude.Table.{lookup}
use sgsu.Users.File.{FileUsers, file_users_laws, IsValid-of_names, rows-file}
use sgsu.Users.Runs.{Write, put, drop_name, after, reference, Shows, file_users_refines}
use sgsu.Accounts.{UserChange, api_user_update, api_user_delete}
use sgsu.Accounts.AdminCheck.{HasAdmin, rows_of}
use sgsu.Accounts.LastAdmin.{api_user_update-HasAdmin, api_user_delete-HasAdmin}
use sgsu.Examples.{appliance, post, as_alice, alice, bob, accounts}

abbrev demote : UserChange
demote = record { role = some "auditor"; enabled = none; password = none }

an_admin : HasAdmin (rows_of file_users_laws appliance)
unfolding lookup
an_admin = ("alice", alice, rows-file accounts "alice", refl)

valid : file_users_laws.IsValid appliance.users
unfolding lookup
valid = IsValid-of_names accounts (refl, (refl, tt)) (refl, (refl, tt))

api_user_update-HasAdmin_example :
    HasAdmin
      (rows_of file_users_laws (api_user_update "bob" (some demote) none post appliance as_alice).0)
unfolding lookup
api_user_update-HasAdmin_example =
    api_user_update-HasAdmin file_users_laws "bob" (some demote) none post appliance as_alice valid
      an_admin

api_user_delete-HasAdmin_example :
    HasAdmin (rows_of file_users_laws (api_user_delete "bob" post appliance as_alice).0)
unfolding lookup
api_user_delete-HasAdmin_example =
    api_user_delete-HasAdmin file_users_laws "bob" post appliance as_alice valid an_admin

-- The file takes only the second of three writes.
abbrev flaky : FileUsers
flaky = record accounts { writes = false ∷ true ∷ false ∷ [] }

abbrev writes : List Write
writes = put (record bob { enabled = false }) ∷ drop_name "alice" ∷ put alice ∷ []

file_users_refines_example :
    Shows (after writes flaky) (reference writes (λ k. lookup k flaky.items))
unfolding lookup
file_users_refines_example = file_users_refines writes flaky (refl, (refl, tt)) (refl, (refl, tt))
