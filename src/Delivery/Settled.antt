-- ===== src/Delivery/Settled.antt =====
-- The guards that an answer passes before it is taken.
use aisle_signals.Common.{
  ◌≡◌, refl, ℕ, ◌<◌, Bool, true, false, ◌||◌, not, Option, none, some, String, leb, Bool-cases,
  Option-cases, inl, inr, arith, tests,
}
use aisle_signals.Observation.Model.{Instant}
use aisle_signals.Outbox.Model.{Result, ok, err, ◌>>=◌, Operation, Item, Db, Vault, Claim}
use aisle_signals.Outbox.Returns.{Returns, value-Returns}
use aisle_signals.Outbox.Leases.{acknowledge, reject, retry}
use aisle_signals.Outbox.Upkeep.{withdraw}
use aisle_signals.Delivery.Authority.{
  DeliveryPolicy, Context, Provider, same, row_of, is_claimed, blocking_reason,
}
use aisle_signals.Delivery.Settlement.{
  Response, receipt, failure, Status, fenced, delivered, withdrawn, blocked, retrying,
  DeliveryResult, plain, maximum, delay_of, settle_failure, settle_response, settle_row, settle,
  is_revoked, halt_code, is_cut_short, is_permanent, rejection, success,
}

-- Whether a result says that the answer was taken: delivered, withdrawn, or to be tried again.
abbrev pub is_taken : Status → Bool
is_taken delivered = true
is_taken withdrawn = true
is_taken retrying = true
is_taken _ = false

abbrev pub is_retrying : Status → Bool
is_retrying retrying = true
is_retrying _ = false

-- What the guards of the code leave.
pub record HasPassed (provider : Provider) (policy : DeliveryPolicy) (ctx : Context) (c : Claim)
    (now : Instant) (db : Db) (r : DeliveryResult) (row : Item) : Type 0 where
  pub is_connected : same ctx (provider.delivery_context db) ≡ true
  pub is_row : row_of db ctx c.id ≡ some row
  pub is_leased : is_claimed ctx c now row ≡ true
  pub may_send : blocking_reason provider db ctx c row now ≡ none
  pub has_attempts : is_retrying r.status ≡ true → row.attempts < maximum policy c.operation

abbrev pub Standing :
    Provider → DeliveryPolicy → Context → Claim → Instant → Db → DeliveryResult × Db → Type 0
Standing provider policy ctx c now db r =
    is_taken r.0.status ≡ true → (row : Item) × HasPassed provider policy ctx c now db r.0 row

then-Returns :
    (P : DeliveryResult × Db → Type 0) (m : Result Db) (r : DeliveryResult)
    → ((d : Db) → P (r, d))
    → Returns P (m >>= λ d. ok (r, d))
then-Returns P (ok d) r h = h d
then-Returns P (err e) r h = tt

failure-Standing :
    (vault : Vault) (provider : Provider) (policy : DeliveryPolicy) (ctx : Context) (c : Claim)
    (row : Item) (code : String) (after : Option ℕ) (now : Instant) (db : Db)
    → (P : DeliveryResult × Db → Type 0)
    → ((d : Db) (s : Status) (e : Option String) → is_taken s ≡ false → P (plain s e, d))
    → ((d : Db) (r : DeliveryResult) → row.attempts < maximum policy c.operation → P (r, d))
    → Returns P (settle_failure vault provider policy ctx c row code after now db)
unfolding settle_failure
failure-Standing vault provider policy ctx c row code after now db P h g =
    elim (Bool-cases (is_cut_short code)) [
      | inl cut ↦ rw (settle_failure, cut) (h db fenced none refl)
      | inr whole ↦
          elim (Bool-cases (is_permanent code || leb (maximum policy c.operation) row.attempts)) [
            | inl over ↦
                rw (settle_failure, whole, over)
                  (then-Returns P
                    (reject vault provider.nonce ctx.scope ctx.binding c (rejection code) now db) _
                    (λ d. h d blocked (some "REMOTE_REJECTED") refl))
            | inr left ↦
                rw (settle_failure, whole, left)
                  (then-Returns P
                    (retry vault ctx.scope ctx.binding c (delay_of policy row.attempts after) now
                      db)
                    _ (λ d. g d _ (grind tests)))
          ]
    ]

not_retrying : (o : Operation) → is_retrying (success o) ≡ true → ⊥
not_retrying Operation.observation h = absurd (cc h)
not_retrying Operation.withdrawal h = absurd (cc h)

-- What is known of a claim whose connection is the same and whose row was found.
response-Standing :
    (vault : Vault) (provider : Provider) (policy : DeliveryPolicy) (ctx : Context) (c : Claim)
    (row : Item) (response : Response) (now : Instant) (db : Db)
    → same ctx (provider.delivery_context db) ≡ true
    → row_of db ctx c.id ≡ some row
    → is_claimed ctx c now row ≡ true
    → blocking_reason provider db ctx c row now ≡ none
    → Returns
        (Standing provider policy ctx c now db)
        (settle_response vault provider policy ctx c row response now db)
response-Standing vault provider policy ctx c row (receipt id) now db s f l b =
    then-Returns (Standing provider policy ctx c now db)
      (acknowledge vault ctx.scope ctx.binding c id now db) _
      (λ d t. (
        row,
        record {
          is_connected = s;
          is_row = f;
          is_leased = l;
          may_send = b;
          has_attempts = λ r. absurd (not_retrying c.operation r);
        },
      ))
response-Standing vault provider policy ctx c row (failure code after) now db s f l b =
    failure-Standing vault provider policy ctx c row code after now db
      (Standing provider policy ctx c now db) (λ d st e n t. absurd (cc (n, t)))
      (λ d r few t. (
        row,
        record {
          is_connected = s;
          is_row = f;
          is_leased = l;
          may_send = b;
          has_attempts = λ u. few;
        },
      ))

row-Standing :
    (vault : Vault) (provider : Provider) (policy : DeliveryPolicy) (ctx : Context) (c : Claim)
    (response : Response) (now : Instant) (db : Db) (found : Option Item)
    → same ctx (provider.delivery_context db) ≡ true
    → row_of db ctx c.id ≡ found
    → Returns
        (Standing provider policy ctx c now db)
        (settle_row vault provider policy ctx c response now db found)
unfolding settle_row
row-Standing vault provider policy ctx c response now db none s f = λ t. absurd (cc t)
row-Standing vault provider policy ctx c response now db (some row) s f =
    elim (Bool-cases (is_claimed ctx c now row)) [
      | inr lost ↦ rw (settle_row, lost) (λ t. absurd (cc t))
      | inl held ↦ elim (Option-cases (blocking_reason provider db ctx c row now)) [
        | inl free ↦
            rw (settle_row, held, free)
              (response-Standing vault provider policy ctx c row response now db s f held free)
        | inr (reason, gone) ↦
            rw (settle_row, held, gone)
              (then-Returns (Standing provider policy ctx c now db)
                (withdraw vault provider.nonce ctx.scope ctx.binding c.id reason now db) _
                (λ d t. absurd (cc t)))
      ]
    ]

settle-Standing :
    (vault : Vault) (provider : Provider) (policy : DeliveryPolicy) (stopping : Bool)
    (ctx : Context) (c : Claim) (response : Response) (now : Instant) (db : Db)
    → Returns
        (Standing provider policy ctx c now db)
        (settle vault provider policy stopping ctx c response now db)
unfolding settle
settle-Standing vault provider policy stopping ctx c response now db =
    elim (Bool-cases (stopping || not (same ctx (provider.delivery_context db)))) [
      | inl off ↦ rw (settle, off) (λ t. absurd (cc t))
      | inr on ↦ elim (Bool-cases (is_revoked response)) [
        | inl revoked ↦ rw (settle, on, revoked) (λ t. absurd (cc t))
        | inr granted ↦ elim (Option-cases (halt_code response)) [
          | inr (code, halts) ↦ rw (settle, on, granted, halts) (λ t. absurd (cc t))
          | inl fine ↦
              rw (settle, on, granted, fine)
                (row-Standing vault provider policy ctx c response now db (row_of db ctx c.id)
                  (ground (arith, on)) refl)
        ]
      ]
    ]

-- An answer that is taken has passed the guards.
pub taken-HasPassed :
    (vault : Vault) (provider : Provider) (policy : DeliveryPolicy) (stopping : Bool)
    (ctx : Context) (c : Claim) (response : Response) (now : Instant) (db db' : Db)
    (r : DeliveryResult)
    → settle vault provider policy stopping ctx c response now db ≡ ok (r, db')
    → is_taken r.status ≡ true
    → (row : Item) × HasPassed provider policy ctx c now db r row
taken-HasPassed vault provider policy stopping ctx c response now db db' r h =
    value-Returns (Standing provider policy ctx c now db) _ (r, db')
      (settle-Standing vault provider policy stopping ctx c response now db) h
