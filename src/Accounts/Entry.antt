-- ===== src/Accounts/Entry.antt =====
-- What an admitted request has shown, and what a change of branch does to the session.
use mathlib.Core.Path.{subst}
use aisle_signals.Common.{
  ◌≡◌, ℕ, ◌+◌, ◌<◌, true, false, ◌&&◌, ◌||◌, not, some, str_eq, ltb, Bool-cases, Option-cases, inl,
  inr, arith, tests,
}
use aisle_signals.Common.Tables.{first}
use aisle_signals.Accounts.Model.{Answer, done, refused, Db, Host, Session}
use aisle_signals.Accounts.Store.{resolve_session_user}
use aisle_signals.Accounts.Login.{seconds}
use aisle_signals.Accounts.Requests.{Request, Context, is_over, site_matches, admit, context}

-- The session that lets a request in: it is on record under the digest of the token, is younger than
-- eight hours and was used within fifteen minutes, and it resolves to the user of the context. A
-- writing request carries the session's secret and, in the pilot mode, names the active branch.
pub record IsEntitled (host : Host) (stamp : ℕ) (request : Request) (db : Db) (c : Context)
    (s : Session) : Type 0 where
  pub is_kept : first (λ s. str_eq s.token_hash (host.digest request.token)) db.sessions ≡ some s
  pub is_young : stamp < s.created_at + seconds 28800
  pub is_in_use : stamp < s.last_seen + seconds 900
  pub is_resolved : resolve_session_user db s ≡ some c.user
  pub has_secret : request.is_write ≡ true → str_eq request.csrf_token s.csrf_token ≡ true
  pub names_branch : request.is_write ≡ true → site_matches db request c.user ≡ true

-- What holds of the value of a handler, when it returns one.
abbrev Yields : {A : Type 0} → (A → Type 0) → Answer A → Type 0
Yields P (done a) = P a
Yields P (refused r) = Unit

abbrev Entitled : Host → ℕ → Request → Db → Context → Type 0
Entitled host stamp request db c = (s : Session) × IsEntitled host stamp request db c s

admit-Entitled :
    (host : Host) (stamp : ℕ) (request : Request) (db : Db) (s : Session)
    → first (λ s. str_eq s.token_hash (host.digest request.token)) db.sessions ≡ some s
    → is_over stamp s ≡ false
    → Yields
        (Entitled host stamp request db)
        (admit stamp request s (host.digest request.token) db).0
unfolding admit
admit-Entitled host stamp request db s f o = elim (Option-cases (resolve_session_user db s)) [
  | inl n ↦ rw (admit, n) tt
  | inr (user, r) ↦
      elim (Bool-cases (request.is_write && not (str_eq request.csrf_token s.csrf_token))) [
        | inl forged ↦ rw (admit, r, forged) tt
        | inr genuine ↦ elim (Bool-cases (request.is_write && not (site_matches db request user))) [
          | inl elsewhere ↦ rw (admit, r, genuine, elsewhere) tt
          | inr here ↦
              rw (admit, r, genuine, here)
                (
                  s,
                  record {
                    is_kept = f;
                    is_young = grind tests;
                    is_in_use = grind tests;
                    is_resolved = r;
                    has_secret = λ w. ground (arith, w, genuine);
                    names_branch = λ w. ground (arith, w, here);
                  },
                )
        ]
      ]
]

context-Entitled :
    (host : Host) (stamp : ℕ) (request : Request) (db : Db)
    → Yields (Entitled host stamp request db) (context host stamp request db).0
unfolding context
context-Entitled host stamp request db =
    elim (Bool-cases (str_eq request.token "" || ltb 256 (host.size request.token))) [
      | inl bad ↦ rw (context, bad) tt
      | inr good ↦
          elim (Option-cases
            (first (λ s. str_eq s.token_hash (host.digest request.token)) db.sessions)) [
              | inl n ↦ rw (context, good, n) tt
              | inr (s, f) ↦ elim (Bool-cases (is_over stamp s)) [
                | inl over ↦ rw (context, good, f, over) tt
                | inr on ↦ rw (context, good, f, on) (admit-Entitled host stamp request db s f on)
              ]
            ]
    ]

-- A request is let in only by a session that entitles it, and as the user that this session resolves
-- to at that moment.
pub entry-IsEntitled :
    (host : Host) (stamp : ℕ) (request : Request) (db : Db) (c : Context)
    → (context host stamp request db).0 ≡ done c
    → (s : Session) × IsEntitled host stamp request db c s
entry-IsEntitled host stamp request db c h =
    subst (Yields (Entitled host stamp request db)) h (context-Entitled host stamp request db)
