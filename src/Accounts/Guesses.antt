-- ===== src/Accounts/Guesses.antt =====
-- How often a password can be tried.
use aisle_signals.Common.{
  ◌≡◌, refl, ℕ, suc, ◌+◌, ◌≤◌, ◌<◌, ◌&&◌, List, [], ◌∷◌, String, str_eq, leb, if◌then◌else◌, le→leb,
}
use aisle_signals.Accounts.Model.{
  done, refused, invalid_credentials, rate_limited, Attempt, Db, Host,
}
use aisle_signals.Accounts.Login.{
  seconds, Login, login, forget_attempts, attempts_for, record_attempt, delete_sessions, is_stale,
}

-- Failed attempts on the address since a time.
unfoldable pub recent : String → ℕ → List Attempt → ℕ
recent email t [] = 0
recent email t (a ∷ rest) =
    (if str_eq a.email email && leb t a.at then 1 else 0) + recent email t rest

-- How many sign-ins of a series are answered that the credentials are wrong.
unfoldable pub wrong_guesses : Host → List (ℕ × Login) → Db → ℕ
wrong_guesses host [] db = 0
wrong_guesses host ((stamp, body) ∷ rest) db =
    let more = wrong_guesses host rest (login host stamp body db).1 in
    elim (login host stamp body db).0 [
      | done s ↦ more
      | refused r ↦ elim r [ invalid_credentials ↦ suc more | _ ↦ more ]
    ]

-- How many sign-ins of a series succeed.
unfoldable pub successes : Host → List (ℕ × Login) → Db → ℕ
successes host [] db = 0
successes host ((stamp, body) ∷ rest) db =
    let more = successes host rest (login host stamp body db).1 in
    elim (login host stamp body db).0 [ done s ↦ suc more | refused r ↦ more ]

abbrev pruned : ℕ → Db → Db
pruned stamp db = delete_sessions (is_stale stamp) (forget_attempts stamp db)

-- A sign-in that is not even compared, because of the attempts that are on record.
abbrev Limited : Host → ℕ → Login → Db → Type 0
Limited host stamp body db =
    ((login host stamp body db).0 ≡ refused rate_limited) × ((login host stamp body db).1 ≡ db)

-- A sign-in whose password was wrong.
abbrev Wrong : Host → ℕ → Login → Db → Type 0
Wrong host stamp body db =
    (attempts_for (host.lower body.email) (pruned stamp db).login_attempts < 5)
    × (((login host stamp body db).0 ≡ refused invalid_credentials)
        × ((login host stamp body db).1
            ≡ record_attempt body.ip (host.lower body.email) stamp (pruned stamp db)))

-- The sign-ins name the address and happen within fifteen minutes.
abbrev pub Within : Host → String → ℕ → ℕ × Login → Type 0
Within host email t r = (host.lower r.1.email ≡ email) × ((t ≤ r.0) × (r.0 ≤ t + seconds 900))

-- A sign-in that meets five recorded failures of its address is answered the same whatever password
-- it brings, and changes nothing.
pub limited_blind :
    (host : Host) (stamp : ℕ) (body : Login) (guess : String) (db : Db)
    → 5 ≤ attempts_for (host.lower body.email) (pruned stamp db).login_attempts
    → (login host stamp (record body { password = guess }) db ≡ login host stamp body db)
      × ((login host stamp body db).1 ≡ db)
unfolding login
limited_blind host stamp body guess db h =
    let full = le→leb 5 (attempts_for (host.lower body.email) (pruned stamp db).login_attempts) h in
    (rw full refl, rw full refl)
