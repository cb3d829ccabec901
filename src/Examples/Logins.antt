-- ===== src/Examples/Logins.antt =====
-- The theorems on logins at concrete requests.
use sgsu.Prelude.{◌≡◌, refl, some, List, [], ◌∷◌}
use sgsu.Prelude.Table.{lookup, insert, remove}
use sgsu.Prelude.Text.{trim_space, trim_left, trim_right, is_space}
use sgsu.Limiter.{check, fail, fail_entry, lock_duration, double, success}
use sgsu.App.{record_info}
use sgsu.Users.File.{file_users_laws, file_get}
use sgsu.Sessions.File.{create}
use sgsu.Login.{Credentials, Draw, login, login_denied, login_unlocked, login_accepted, accepted}
use sgsu.Login.Lockout.{Attempt, guesses}
use sgsu.Login.Outcomes.{login_opens, Opened}
use sgsu.Examples.{toy, appliance, post}

abbrev typed : Credentials
typed = record { username = "alice "; password = "secret of alice" }

abbrev wrong : Credentials
wrong = record { username = "alice"; password = "guess" }

abbrev draw : Draw
draw = record { token = "new cookie"; csrf = "new csrf" }

login_opens_example :
    Opened toy file_users_laws typed draw post appliance
      (login toy (some typed) draw post appliance).0
unfolding login check lookup login_unlocked accepted login_accepted trim_space trim_left trim_right
    is_space file_get create
login_opens_example = login_opens toy file_users_laws appliance typed draw post refl

-- Two guesses from one address, a good login from another in between, and a third guess
abbrev guessing : List Attempt
guessing =
    (some wrong, draw, post)
    ∷ (some wrong, draw, post)
    ∷ (some typed, draw, record post { remote_ip = "10.0.0.8" })
    ∷ (some wrong, draw, post)
    ∷ []

one_guess : guesses toy "ip:10.0.0.9" guessing appliance ≡ 1
unfolding login check lookup login_unlocked accepted login_accepted login_denied trim_space
    trim_left trim_right is_space file_get create guesses fail fail_entry lock_duration double
    insert record_info success remove
one_guess = refl
