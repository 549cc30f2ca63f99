-- ===== src/Payments/Lifecycle/Attempts.antt =====
-- Attempts between their creation and their end.
use Prim.Native.String.{String}
use mathlib.Core.Path.{subst}
use mallbyte_api.Common.Account.{User}
use mallbyte_api.Common.Table.{
  lookup, save, IsKeyed, save-IsKeyed, KeysBelow, KeysBelow-suc, save-KeysBelow, lookup-KeysBelow,
  sum_rows-save,
}
use mallbyte_api.Common.{
  ℕ, ◌+◌, ◌<◌, ◌≡◌, refl, sym, ap, ◌∙◌, ◌⊎◌, inl, inr, true, none, some, List, [], ◌∷◌, arith,
  Option-cases, ok, Result-cases,
}
use mallbyte_api.Market.Row.{Order, Payment, AttemptStatus, pending}
use mallbyte_api.Market.State.{Market}
use mallbyte_api.Orders.Query.{is_pending_payment, is_open}
use mallbyte_api.Payments.Attempt.Once.{IsOnce, succeeded}
use mallbyte_api.Payments.Lifecycle.{
  validate_order, existing_attempt, new_attempt, create, mark_failed, cancel,
}

-- Attempts under keys of their own, none of which is the next key, and one success an order.
pub record IsOrderly (db : Market) : Type 0 where
  pub keyed : IsKeyed db.payments
  pub below : KeysBelow db.next_key db.payments
  pub once : IsOnce db.payments

existing_attempt-stored :
    (order k : ℕ) (p : Payment) (ps : List (ℕ × Payment))
    → IsKeyed ps
    → existing_attempt order ps ≡ some (k, p)
    → (lookup k ps ≡ some p) × (p.order ≡ order) × (p.status ≡ pending)
unfolding existing_attempt
existing_attempt-stored order k p [] v h = cc
existing_attempt-stored order k p ((j, r) ∷ ps) v h =
    ground (arith, existing_attempt-stored order k p ps v.1, v.0)

module _ (user : User) (pk : ℕ) (db : Market) where
  -- The two ways in which `create` succeeds.
  pub create_inv :
      {k : ℕ} {db' : Market}
      → create user pk db ≡ ok (k, db')
      → (order : Order) × (lookup pk db.orders ≡ some order)
        × (validate_order user order ≡ ok tt)
        × (((p : Payment) × (existing_attempt pk db.payments ≡ some (k, p))
              × (p.amount ≡ order.total_amount)
              × (db' ≡ db))
            ⊎ ((existing_attempt pk db.payments ≡ none)
                × (k ≡ db.next_key)
                × (db'.payments ≡ (db.next_key, new_attempt user pk order) ∷ db.payments)
                × (db'.next_key ≡ db.next_key + 1)
                × (db'.orders ≡ db.orders)))
  unfolding create
  create_inv {k} {db'} h = elim (Option-cases (lookup pk db.orders)) [
    | inl missing ↦ ground arith
    | inr (order, stored) ↦ elim (Result-cases (validate_order user order)) [
      | inr (e, raised) ↦ ground arith
      | inl (u, valid) ↦ elim (Option-cases (existing_attempt pk db.payments)) [
        | inl new ↦ (
          order,
          stored,
          valid,
          inr (new, ground arith, ground arith, ground arith, ground arith),
        )
        | inr ((j, p), old) ↦
            (order, stored, valid, inl (p, ground arith, ground arith, ground arith))
      ]
    ]
  ]

  -- From orderly attempts, a payment that is created, or found, is a pending attempt for the
  -- exact total of its stored order, which is above 0, and the order waits for its payment.
  pub create_payable :
      {k : ℕ} {db' : Market}
      → create user pk db ≡ ok (k, db')
      → IsOrderly db
      → (order : Order) × (p : Payment) × (lookup pk db'.orders ≡ some order)
        × (lookup k db'.payments ≡ some p)
        × (p.order ≡ pk)
        × (p.status ≡ pending)
        × (p.amount ≡ order.total_amount)
        × (0 < p.amount)
        × (is_pending_payment order.status ≡ true)
        × (is_open order.payment_status ≡ true)
  unfolding new_attempt validate_order
  create_payable {k} {db'} h v =
      let (order, stored, valid, way) = create_inv h in
      elim way [
        | inl (p, old, amount, same) ↦
            let at = existing_attempt-stored pk k p db.payments v.keyed old in
            (
              order,
              p,
              ground arith,
              ground arith,
              at.1,
              at.2,
              amount,
              ground arith,
              ground arith,
              ground arith,
            )
        | inr (new, key, payments, next, orders) ↦ (
          order,
          new_attempt user pk order,
          ground arith,
          ground arith,
          refl,
          refl,
          refl,
          ground arith,
          ground arith,
          ground arith,
        )
      ]

  -- Creating a payment again gives the same attempt and changes nothing.
  pub create_again :
      {k : ℕ} {db' : Market} → create user pk db ≡ ok (k, db') → create user pk db' ≡ ok (k, db')
  unfolding create existing_attempt new_attempt
  create_again {k} {db'} h =
      let (order, stored, valid, way) = create_inv h in
      elim way [
        | inl (p, old, amount, same) ↦ subst (λ d. create user pk d ≡ ok (k, db')) (sym same) h
        | inr (new, key, payments, next, orders) ↦
            let stored' : lookup pk db'.orders ≡ some order = ap (lookup pk) orders ∙ stored in
            ground arith
      ]

  pub create-IsOrderly :
      {k : ℕ} {db' : Market} → create user pk db ≡ ok (k, db') → IsOrderly db → IsOrderly db'
  unfolding new_attempt
  create-IsOrderly {k} {db'} h v =
      let (order, stored, valid, way) = create_inv h in
      elim way [
        | inl (p, old, amount, same) ↦ rw same v
        | inr (new, key, payments, next, orders) ↦ record {
          keyed =
              rw payments (
                lookup-KeysBelow db.next_key db.next_key db.payments v.below (omega arith),
                v.keyed,
              );
          below =
              subst (λ n. KeysBelow n db'.payments) (sym next)
                (rw payments (omega arith, KeysBelow-suc db.next_key db.payments v.below));
          once = λ q. rw payments (ground (arith, v.once q));
        }
      ]

-- A failure, and a cancellation, is written to a row that was no success, so orders keep their one
-- success.
save-IsOrderly :
    (pk : ℕ) (p p' : Payment) (db : Market)
    → lookup pk db.payments ≡ some p
    → ((q : ℕ) → succeeded q p' ≡ 0)
    → IsOrderly db
    → IsOrderly (record db { payments = save pk p' db.payments })
save-IsOrderly pk p p' db found no_success v = record {
  keyed = save-IsKeyed pk p' db.payments v.keyed;
  below = save-KeysBelow db.next_key pk p' db.payments v.below;
  once = λ q.
      omega (arith, v.once q, no_success q, sum_rows-save (succeeded q) pk p' p db.payments found);
}

pub mark_failed-IsOrderly :
    (now : ℕ) (reason : String) (pk : ℕ) (db db' : Market)
    → mark_failed now reason pk db ≡ ok db'
    → IsOrderly db
    → IsOrderly db'
unfolding mark_failed
mark_failed-IsOrderly now reason pk db db' h v = elim (Option-cases (lookup pk db.payments)) [
  | inl missing ↦ ground arith
  | inr (p, found) ↦
      let p' = record p {
        status = AttemptStatus.failed;
        failure_reason = reason;
        failed_at = some now;
      } in
      let new : db' ≡ record db { payments = save pk p' db.payments } = ground arith in
      rw new (save-IsOrderly pk p p' db found (λ q. ground arith) v)
]

pub cancel-IsOrderly :
    (now : ℕ) (reason : String) (pk : ℕ) (db db' : Market)
    → cancel now reason pk db ≡ ok db'
    → IsOrderly db
    → IsOrderly db'
unfolding cancel
cancel-IsOrderly now reason pk db db' h v = elim (Option-cases (lookup pk db.payments)) [
  | inl missing ↦ ground arith
  | inr (p, found) ↦
      let p' = record p {
        status = AttemptStatus.cancelled;
        failure_reason = reason;
        cancelled_at = some now;
      } in
      let new : db' ≡ record db { payments = save pk p' db.payments } = ground arith in
      rw new (save-IsOrderly pk p p' db found (λ q. ground arith) v)
]
