-- ===== src/Payments/Complete/Capture.antt =====
-- What a completed payment leaves in the tables.
use Prim.Native.String.{String}
use mallbyte_api.Common.Table.{lookup, save, lookup-save_self, IsKeyed, save-IsKeyed}
use mallbyte_api.Common.{
  ℕ, ◌+◌, ◌≡◌, refl, ap, ◌∙◌, ◌↔◌, inl, inr, true, false, Option, none, ◌⊎◌, some, List, arith,
  Option-cases, ok, Result-cases,
}
use mallbyte_api.Inventory.Stock.Table.{AllSound}
use mallbyte_api.Inventory.Movement.Effect.{quantity_at, reserved_at}
use mallbyte_api.Inventory.Movement.Audit.{IsRecorded}
use mallbyte_api.Market.Row.{Order, pending_payment, Payment, pending}
use mallbyte_api.Market.State.{Market}
use mallbyte_api.Orders.Query.{items_of, is_open}
use mallbyte_api.Payments.Attempt.{cancel_attempts, has_other_success}
use mallbyte_api.Payments.Attempt.Once.{
  IsOnce, unfinished, cancel_attempts-unfinished, cancel_attempts-successes,
  cancel_attempts-IsKeyed, lookup-cancel_attempts_self, completed-IsOnce,
}
use mallbyte_api.Payments.Complete.{
  Moment, aware, naive, check_payable, capture_time, sell_items, reference_taken, captured,
  mark_paid, mark_success,
}
use mallbyte_api.Payments.Complete.Sale.{taken_by, sell_items_effect, sell_items-IsRecorded}

-- What the guards of `mark_success` have found.
pub record IsPayable (pk : ℕ) (order : Order) (p : Payment) (payments : List (ℕ × Payment))
    : Type 0 where
  pub attempt : p.status ≡ pending
  pub awaiting : order.status ≡ pending_payment
  pub unsettled : is_open order.payment_status ≡ true
  pub alone : has_other_success p.order pk payments ≡ false
  pub exact : p.amount ≡ order.total_amount

pub check_payable_iff :
    (pk : ℕ) (order : Order) (p : Payment) (payments : List (ℕ × Payment))
    → (check_payable pk order p payments ≡ ok tt) ↔ IsPayable pk order p payments
unfolding check_payable
check_payable_iff pk order p payments = (λ h. ground arith, λ h. ground arith)

-- When the gateway confirmed the payment, or now where it did not say.
abbrev IsTime : ℕ → Option Moment → ℕ → Type 0
IsTime now confirmed_at at = ((confirmed_at ≡ none) × (at ≡ now)) ⊎ (confirmed_at ≡ some (aware at))

capture_time-ok :
    (now at : ℕ) (confirmed_at : Option Moment)
    → capture_time now confirmed_at ≡ ok at
    → IsTime now confirmed_at at
unfolding capture_time
capture_time-ok now at none h = inl (refl, ground arith)
capture_time-ok now at (some (aware t)) h = inr (ground arith)
capture_time-ok now at (some (naive t)) h = absurd (ground arith)

-- The stored payment, its order and the time of the capture, with what a completion has checked
-- and written.
pub record Captures (pk now : ℕ) (reference : String) (confirmed_at : Option Moment)
    (db db' : Market) : Type 0 where
  pub p : Payment
  pub order : Order
  pub at : ℕ
  pub timed : IsTime now confirmed_at at
  pub stored : lookup pk db.payments ≡ some p
  pub ordered : lookup p.order db.orders ≡ some order
  pub payable : IsPayable pk order p db.payments
  pub sold : sell_items pk p.user (items_of p.order db.items) db.ledger ≡ ok db'.ledger
  pub fresh : reference_taken pk p.provider reference db.payments ≡ false
  pub orders : db'.orders ≡ save p.order (mark_paid at order) db.orders
  pub payments :
      db'.payments
      ≡ cancel_attempts p.order
          (some pk)
          at
          "Another payment attempt completed this order."
          (save pk (captured at reference p) db.payments)

module _ (distinct : List ℕ → List ℕ) (now : ℕ) (reference : String) (confirmed_at : Option Moment)
    (pk : ℕ) where
  pub mark_success_inv :
      (db db' : Market)
      → mark_success distinct now reference confirmed_at pk db ≡ ok db'
      → Captures pk now reference confirmed_at db db'
  unfolding mark_success
  mark_success_inv db db' h = elim (Option-cases (lookup pk db.payments)) [
    | inl missing ↦ ground arith
    | inr (p, stored) ↦ elim (Option-cases (lookup p.order db.orders)) [
      | inl missing ↦ ground arith
      | inr (order, ordered) ↦ elim (Result-cases (check_payable pk order p db.payments)) [
        | inr (e, raised) ↦ ground arith
        | inl (u, passed) ↦
            elim (Result-cases (sell_items pk p.user (items_of p.order db.items) db.ledger)) [
              | inr (e, raised) ↦ ground arith
              | inl (l, sold) ↦ elim (Result-cases (capture_time now confirmed_at)) [
                | inr (e, raised) ↦ ground arith
                | inl (at, timed) ↦ record {
                  p = p;
                  order = order;
                  at = at;
                  timed = capture_time-ok now at confirmed_at timed;
                  stored = stored;
                  ordered = ordered;
                  payable = (check_payable_iff pk order p db.payments).0 passed;
                  sold = ground arith;
                  fresh = ground arith;
                  orders = ground arith;
                  payments = ground arith;
                }
              ]
            ]
      ]
    ]
  ]

  -- A completion that succeeds stores the attempt as a success of the order's exact total and marks
  -- the order paid, both at the time that the gateway confirmed, which knows its time zone, or now
  -- where it confirmed none; it leaves no other attempt of the order pending, and takes the reserved
  -- units of the order's items from their places.
  pub mark_success_effect :
      (db db' : Market)
      → mark_success distinct now reference confirmed_at pk db ≡ ok db'
      → (p : Payment) × (order : Order) × (at : ℕ) × (((confirmed_at ≡ none) × (at ≡ now))
          ⊎ (confirmed_at ≡ some (aware at)))
        × (lookup pk db.payments ≡ some p)
        × (lookup p.order db.orders ≡ some order)
        × (p.amount ≡ order.total_amount)
        × (lookup pk db'.payments ≡ some (captured at reference p))
        × (lookup p.order db'.orders ≡ some (mark_paid at order))
        × (unfinished p.order (some pk) db'.payments ≡ 0)
        × ((q w : ℕ)
            → (quantity_at q w db'.ledger.stocks + taken_by q w (items_of p.order db.items)
                ≡ quantity_at q w db.ledger.stocks)
              × (reserved_at q w db'.ledger.stocks + taken_by q w (items_of p.order db.items)
                  ≡ reserved_at q w db.ledger.stocks))
  mark_success_effect db db' h =
      let c = mark_success_inv db db' h in
      let reason : String = "Another payment attempt completed this order." in
      let saved = save pk (captured c.at reference c.p) db.payments in
      (
        c.p,
        c.order,
        c.at,
        c.timed,
        c.stored,
        c.ordered,
        c.payable.exact,
        ap (lookup pk) c.payments
            ∙ lookup-cancel_attempts_self c.p.order c.at pk reason saved
            ∙ lookup-save_self pk (captured c.at reference c.p) c.p db.payments c.stored,
        ap (lookup c.p.order) c.orders
            ∙ lookup-save_self c.p.order (mark_paid c.at c.order) c.order db.orders c.ordered,
        ap (unfinished c.p.order (some pk)) c.payments
            ∙ cancel_attempts-unfinished c.p.order (some pk) c.at reason saved,
        λ q w.
            sell_items_effect pk c.p.user (items_of c.p.order db.items) db.ledger db'.ledger q w
              c.sold,
      )

  -- A completion keeps the keys of the attempts apart, and keeps every order at one successful
  -- attempt at most.
  pub mark_success-IsOnce :
      (db db' : Market)
      → mark_success distinct now reference confirmed_at pk db ≡ ok db'
      → IsKeyed db.payments × IsOnce db.payments
      → IsKeyed db'.payments × IsOnce db'.payments
  unfolding captured
  mark_success-IsOnce db db' h (keyed, once) =
      let c = mark_success_inv db db' h in
      let reason : String = "Another payment attempt completed this order." in
      let new = captured c.at reference c.p in
      let saved = save pk new db.payments in
      let one =
        completed-IsOnce c.p.order pk c.p new db.payments keyed c.stored c.payable.attempt refl refl
          c.payable.alone once in
      (
        rw c.payments (
            cancel_attempts-IsKeyed c.p.order (some pk) c.at reason saved
              (save-IsKeyed pk new db.payments keyed)),
        λ q.
            rw c.payments
              (rw (cancel_attempts-successes c.p.order (some pk) c.at reason saved q) (one q)),
      )

  -- A completion keeps the counters sound and equal to the sum of the recorded movements.
  pub mark_success-IsRecorded :
      (db db' : Market)
      → mark_success distinct now reference confirmed_at pk db ≡ ok db'
      → AllSound db.ledger.stocks × IsRecorded db.ledger
      → AllSound db'.ledger.stocks × IsRecorded db'.ledger
  mark_success-IsRecorded db db' h v =
      let c = mark_success_inv db db' h in
      sell_items-IsRecorded pk c.p.user (items_of c.p.order db.items) db.ledger db'.ledger c.sold v
