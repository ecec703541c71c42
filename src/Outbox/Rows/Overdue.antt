-- ===== src/Outbox/Rows/Overdue.antt =====
-- What `_withdraw` and `_expire` leave of the rows.
use aisle_signals.Common.{
  ◌≡◌, refl, Bool, true, false, ◌||◌, ℕ, List, [], ◌∷◌, String, arith, Bool-cases, inl, inr, All,
  All-map, leb, length, str_eq, ◌⊎◌,
}
use aisle_signals.Outbox.Model.{
  ok, Scope, BindingRef, Item, Vault, is_dropped, is_leased, is_withdrawal, withdrawal, withdrawing,
  withdrawal_reserve,
}
use aisle_signals.Outbox.Rows.{
  aad_of, withdraw_item, update_where, unleased, withdraw_where, expire_items, encrypt, is_overdue,
}
use aisle_signals.Outbox.Returns.{Returns, Result-cases, value-Returns}

-- Nothing of the item goes out as an observation.
abbrev pub is_recalled : Item → Bool
is_recalled i = is_withdrawal i.operation || is_dropped i.state

abbrev pub Recalled : Item → Type 0
Recalled i = is_recalled i ≡ true

withdraw_item-Recalled :
    (vault : Vault) (nonce : String → String) (scope : Scope) (ref : BindingRef) (reason : String)
    (now : ℕ) (i : Item)
    → Returns Recalled (withdraw_item vault nonce scope ref reason now i)
unfolding withdraw_item
withdraw_item-Recalled vault nonce scope ref reason now i =
    elim (Bool-cases (is_withdrawal i.operation)) [
      | inl w ↦ rw w (rw w refl)
      | inr o ↦ elim (Bool-cases i.ever_attempted) [
        | inl tried ↦
            elim (Result-cases (
              encrypt vault (nonce i.id) (aad_of scope ref i withdrawal)
                (withdrawing i.source_event_id reason))) [
                  | inl (bytes, e) ↦ rw o (
                      rw tried (
                        rw e (elim (Bool-cases (leb (length bytes) withdrawal_reserve)) [
                          | inl fits ↦ rw fits refl
                          | inr big ↦ rw big tt
                        ])))
                  | inr (c, e) ↦ rw o (rw tried (rw e tt))
                ]
        | inr fresh ↦ rw o (
            rw fresh (
              rw o (elim (Bool-cases (str_eq reason "LOCAL_EXPIRED")) [
                | inl r ↦ rw r refl
                | inr r ↦ rw r refl
              ])))
      ]
    ]

-- A row that the test does not select stays; another is recalled.
abbrev pub IsDone : (Item → Bool) → Item → Type 0
IsDone p i = (p i ≡ false) ⊎ Recalled i

pub withdraw_where-IsDone :
    (vault : Vault) (nonce : String → String) (scope : Scope) (ref : BindingRef) (reason : String)
    (now : ℕ) (p : Item → Bool) (is : List Item)
    → Returns (All (IsDone p)) (withdraw_where vault nonce scope ref reason now p is)
unfolding withdraw_where
withdraw_where-IsDone vault nonce scope ref reason now p [] = tt
withdraw_where-IsDone vault nonce scope ref reason now p (i ∷ is) =
    elim (Result-cases (withdraw_where vault nonce scope ref reason now p is)) [
      | inr (c, e) ↦ elim (Bool-cases (p i)) [
        | inr skip ↦ rw skip (rw e tt)
        | inl chosen ↦
            rw chosen (elim (Result-cases (withdraw_item vault nonce scope ref reason now i)) [
              | inl (j, f) ↦ rw f (rw e tt)
              | inr (d, f) ↦ rw f tt
            ])
      ]
      | inl (js, e) ↦
          let tail =
            value-Returns (All (IsDone p)) _ js
              (withdraw_where-IsDone vault nonce scope ref reason now p is) e in
          elim (Bool-cases (p i)) [
            | inr skip ↦ rw skip (rw e (inl skip, tail))
            | inl chosen ↦
                rw chosen (elim (Result-cases (withdraw_item vault nonce scope ref reason now i)) [
                  | inl (j, f) ↦ rw f (
                      rw e (
                        inr (
                            value-Returns Recalled _ j
                              (withdraw_item-Recalled vault nonce scope ref reason now i) f),
                        tail,
                      ))
                  | inr (c, f) ↦ rw f tt
                ])
          ]
    ]

-- No observation of the binding past its deadline is left to send.
abbrev pub InTime : BindingRef → ℕ → Item → Type 0
InTime ref now i = is_overdue ref now i ≡ false

done-InTime :
    (ref : BindingRef) (now : ℕ) (i : Item) → IsDone (is_overdue ref now) i → InTime ref now i
done-InTime ref now i (inl h) = h
done-InTime ref now i (inr h) = ground arith

pub expire_items-InTime :
    (vault : Vault) (nonce : String → String) (scope : Scope) (ref : BindingRef) (now : ℕ)
    (is js : List Item)
    → expire_items vault nonce scope ref now is ≡ ok js
    → All (InTime ref now) js
unfolding expire_items
expire_items-InTime vault nonce scope ref now is js h = All-map (done-InTime ref now) js (
    value-Returns (All (IsDone (is_overdue ref now))) _ js
      (withdraw_where-IsDone vault nonce scope ref "LOCAL_EXPIRED" now (is_overdue ref now) is) h)

unleased-InTime :
    (ref : BindingRef) (now : ℕ) (i : Item)
    → is_leased i.state ≡ true
    → InTime ref now i
    → InTime ref now (unleased i)
unleased-InTime ref now i l h = ground arith

pub update_where-InTime :
    (ref : BindingRef) (now : ℕ) (q : Item → Bool) (is : List Item)
    → ((i : Item) → q i ≡ true → is_leased i.state ≡ true)
    → All (InTime ref now) is
    → All (InTime ref now) (update_where q unleased is)
unfolding update_where
update_where-InTime ref now q [] l h = tt
update_where-InTime ref now q (i ∷ is) l h = (
  elim (Bool-cases (q i)) [
    | inl chosen ↦ rw chosen (unleased-InTime ref now i (l i chosen) h.0)
    | inr skip ↦ rw skip h.0
  ],
  update_where-InTime ref now q is l h.1,
)
