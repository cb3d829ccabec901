-- ===== src/Login/Lockout.antt =====
-- cmd/saguaro/main.go, `login`, with ratelimit.go: how many guesses a client address has.
use sgsu.Prelude.{
  ℕ, ◌+◌, ◌-◌, ◌≤◌, Bool, true, false, not, ◌&&◌, ◌||◌, ◌==◌, Option, String, List, [], ◌∷◌, str_eq,
  if◌then◌else◌, ◌≡◌, ◌⊎◌,
}
use sgsu.Prelude.Table.{lookup}
use sgsu.Limiter.{Limiter, entry_or_new, fail, success}
use sgsu.Users.{UserStore}
use sgsu.Sessions.{SessionStore}
use sgsu.App.{App, Request, Primitives, Status}
use sgsu.Login.{Credentials, Draw, ip_key, login}

-- A login: its body, the tokens it would draw, and the request
abbrev pub Attempt : Type 0
Attempt = Option Credentials × Draw × Request

-- The failures that the limiter still lets pass for a key without a lock
abbrev pub room : Limiter → String → ℕ
room l key = l.free_attempts - (entry_or_new (lookup key l.entries)).failures

abbrev SameSettings : Limiter → Limiter → Type 0
SameSettings l m = (l.free_attempts ≡ m.free_attempts) × (l.base ≡ m.base) × (l.cap ≡ m.cap)

module _ {U : UserStore} {S : SessionStore} (P : Primitives) where
  -- The answers 401 to a client address
  unfoldable pub guesses : String → List Attempt → App U S → ℕ
  unfolding login
  guesses key [] a = 0
  guesses key ((i, d, r) ∷ more) a =
      let out = login P i d r a in
      (if str_eq (ip_key r) key && out.1 == 401 then 1 else 0) + guesses key more out.0

  -- None of the answers to a client address is 200 or 500.
  unfoldable pub none_opened : String → List Attempt → App U S → Bool
  unfolding login
  none_opened key [] a = true
  none_opened key ((i, d, r) ∷ more) a =
      let out = login P i d r a in
      not (str_eq (ip_key r) key && (out.1 == 200 || out.1 == 500)) && none_opened key more out.0

  -- What a login leaves of the limiter of addresses, with its answer
  Counts : App U S → Request → App U S × Status → Type 0
  Counts a r out =
      ((out.0.ip_limiter ≡ a.ip_limiter) × ((out.1 == 401) ≡ false))
      ⊎ (((out.0.ip_limiter ≡ (fail a.ip_limiter (ip_key r) r.now).0)
            × (((out.1 == 401) ≡ false) ⊎ ((fail a.ip_limiter (ip_key r) r.now).1 ≡ 0)))
          ⊎ ((out.0.ip_limiter ≡ success a.ip_limiter (ip_key r))
              × ((out.1 == 200 || out.1 == 500) ≡ true)))

  -- A login uses up the room of its address for each answer 401, and keeps the settings.
  Spends : String → App U S → Request → App U S × Status → Type 0
  Spends key a r out =
      (((if str_eq (ip_key r) key && out.1 == 401 then 1 else 0) + room out.0.ip_limiter key)
        ≤ room a.ip_limiter key)
      × SameSettings out.0.ip_limiter a.ip_limiter
