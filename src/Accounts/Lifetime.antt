-- ===== src/Accounts/Lifetime.antt =====
-- A session does not outlive the eight hours after its sign-in.
use aisle_signals.Common.{
  ◌≡◌, ◌≢◌, ℕ, ◌+◌, ◌≤◌, Bool, ◌&&◌, ◌||◌, not, some, List, [], ◌∷◌, String, str_eq, ltb,
  Bool-cases, Option-cases, inl, inr, arith, All, All-append,
}
use aisle_signals.Common.Tables.{first, All-delete_where, All-update_where, first-All}
use aisle_signals.Accounts.Model.{done, Db, Host, Session}
use aisle_signals.Accounts.Store.{resolve_session_user, put, audit, allowed_sites, Branch}
use aisle_signals.Accounts.Login.{seconds, delete_sessions}
use aisle_signals.Accounts.Requests.{
  Request, Context, is_over, site_matches, admit, context, rotate, switch_site, logout, touch,
  touches,
}
use aisle_signals.Accounts.Entry.{entry-IsEntitled}

-- Every session was opened by a sign-in no later than the time.
Born : ℕ → Db → Type 0
Born t db = All (λ s. s.created_at ≤ t) db.sessions

deleted-Born : (t : ℕ) (d : Session → Bool) (db : Db) → Born t db → Born t (delete_sessions d db)
unfolding Born delete_sessions
deleted-Born t d db h = All-delete_where (λ s. s.created_at ≤ t) d db.sessions h

touched-Born : (t stamp : ℕ) (token : String) (db : Db) → Born t db → Born t (touch stamp token db)
unfolding Born touch
touched-Born t stamp token db h =
    All-update_where (λ s. s.created_at ≤ t) (λ s. s.created_at ≤ t) _ _ db.sessions
      (λ s k. elim (Bool-cases (str_eq s.token_hash token)) [
        | inl hit ↦ rw hit k
        | inr other ↦ rw other k
      ])
      h

admit-Born :
    (t stamp : ℕ) (request : Request) (s : Session) (token : String) (db : Db)
    → Born t db
    → Born t (admit stamp request s token db).1
unfolding admit
admit-Born t stamp request s token db h = elim (Option-cases (resolve_session_user db s)) [
  | inl n ↦ rw (admit, n) h
  | inr (user, r) ↦
      elim (Bool-cases (request.is_write && not (str_eq request.csrf_token s.csrf_token))) [
        | inl forged ↦ rw (admit, r, forged) h
        | inr genuine ↦ elim (Bool-cases (request.is_write && not (site_matches db request user))) [
          | inl elsewhere ↦ rw (admit, r, genuine, elsewhere) h
          | inr here ↦
              rw (admit, r, genuine, here)
                (elim (Bool-cases (touches request)) [
                  | inl used ↦ rw used (touched-Born t stamp token db h)
                  | inr seen ↦ rw seen h
                ])
        ]
      ]
]

context-Born :
    (t : ℕ) (host : Host) (stamp : ℕ) (request : Request) (db : Db)
    → Born t db
    → Born t (context host stamp request db).1
unfolding context
context-Born t host stamp request db h =
    elim (Bool-cases (str_eq request.token "" || ltb 256 (host.size request.token))) [
      | inl bad ↦ rw (context, bad) h
      | inr good ↦
          elim (Option-cases
            (first (λ s. str_eq s.token_hash (host.digest request.token)) db.sessions)) [
              | inl n ↦ rw (context, good, n) h
              | inr (s, f) ↦ elim (Bool-cases (is_over stamp s)) [
                | inl over ↦ rw (context, good, f, over) (deleted-Born t _ db h)
                | inr on ↦
                    rw (context, good, f, on)
                      (admit-Born t stamp request s (host.digest request.token) db h)
              ]
            ]
    ]

switched-Born :
    (t : ℕ) (host : Host) (stamp : ℕ) (ctx : Context) (selected : Branch) (s : Session) (db : Db)
    → first (λ s. str_eq s.token_hash ctx.token_hash) db.sessions ≡ some s
    → Born t db
    → Born t (rotate host stamp ctx selected s.created_at db)
unfolding Born rotate audit put delete_sessions
switched-Born t host stamp ctx selected s db f h =
    All-append (λ s. s.created_at ≤ t) _ _
      (All-delete_where (λ s. s.created_at ≤ t) _ db.sessions h)
      (
        first-All (λ s. s.created_at ≤ t) (λ s. str_eq s.token_hash ctx.token_hash) db.sessions s h
            f,
        tt,
      )

switch_site-Born :
    (t : ℕ) (host : Host) (stamp : ℕ) (ctx : Context) (site_id : String) (db : Db)
    → Born t db
    → Born t (switch_site host stamp ctx site_id db).1
unfolding switch_site
switch_site-Born t host stamp ctx site_id db h =
    elim (Option-cases (first (λ s. str_eq s.id site_id) (allowed_sites host db ctx.user))) [
      | inl n ↦ rw (switch_site, n) h
      | inr (selected, e) ↦
          elim (Bool-cases (str_eq db.mode "synthetic" || str_eq site_id ctx.user.site_id)) [
            | inl same ↦ rw (switch_site, e, same) h
            | inr other ↦
                elim (Option-cases (first (λ s. str_eq s.token_hash ctx.token_hash) db.sessions)) [
                  | inl n ↦ rw (switch_site, e, other, n) h
                  | inr (s, f) ↦
                      rw (switch_site, e, other, f)
                        (switched-Born t host stamp ctx selected s db f h)
                ]
          ]
    ]

logout-Born :
    (t : ℕ) (host : Host) (ctx : Context) (db : Db) → Born t db → Born t (logout host ctx db)
unfolding Born logout audit put delete_sessions
logout-Born t host ctx db h = All-delete_where (λ s. s.created_at ≤ t) _ db.sessions h

-- What can happen to sessions, apart from signing in.
pub data Move : Type 0 where
  request : ℕ → Request → Move
  switch : ℕ → Context → String → Move
  leave : Context → Move

unfoldable pub run_moves : Host → List Move → Db → Db
run_moves host [] db = db
run_moves host (request stamp r ∷ moves) db = run_moves host moves (context host stamp r db).1
run_moves host (switch stamp ctx site_id ∷ moves) db =
    run_moves host moves (switch_site host stamp ctx site_id db).1
run_moves host (leave ctx ∷ moves) db = run_moves host moves (logout host ctx db)

run_moves-Born :
    (t : ℕ) (host : Host) (moves : List Move) (db : Db)
    → Born t db
    → Born t (run_moves host moves db)
unfolding run_moves
run_moves-Born t host [] db h = h
run_moves-Born t host (request stamp r ∷ moves) db h =
    run_moves-Born t host moves _ (context-Born t host stamp r db h)
run_moves-Born t host (switch stamp ctx site_id ∷ moves) db h =
    run_moves-Born t host moves _ (switch_site-Born t host stamp ctx site_id db h)
run_moves-Born t host (leave ctx ∷ moves) db h =
    run_moves-Born t host moves _ (logout-Born t host ctx db h)

-- When nobody signs in after a time, no request is let in from eight hours after that time on,
-- whatever requests, changes of branch and sign-outs happen in between.
pub workday_ends :
    (t : ℕ) (host : Host) (moves : List Move) (db : Db) (stamp : ℕ) (r : Request) (c : Context)
    → All (λ (s : Session). s.created_at ≤ t) db.sessions
    → t + seconds 28800 ≤ stamp
    → (context host stamp r (run_moves host moves db)).0 ≢ done c
unfolding Born
workday_ends t host moves db stamp r c h late entry =
    let (s, e) = entry-IsEntitled host stamp r (run_moves host moves db) c entry in
    let born =
      first-All (λ s. s.created_at ≤ t) (λ s. str_eq s.token_hash (host.digest r.token))
        (run_moves host moves db).sessions s (run_moves-Born t host moves db h) e.is_kept in
    let young = e.is_young in omega (arith, born, young, late)
