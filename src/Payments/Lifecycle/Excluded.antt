-- ===== src/Payments/Lifecycle/Excluded.antt =====
-- What a completed payment leaves no room for.
use Prim.Native.String.{String}
use mallbyte_api.Common.Account.{User}
use mallbyte_api.Common.Table.{lookup, lookup-save_self}
use mallbyte_api.Common.{ℕ, ◌≡◌, ap, ◌∙◌, ◌≢◌, Option, some, List, arith, ok}
use mallbyte_api.Market.Row.{Payment}
use mallbyte_api.Market.State.{Market}
use mallbyte_api.Orders.Total.{with_total}
use mallbyte_api.Payments.Complete.{Moment, mark_paid, mark_success}
use mallbyte_api.Payments.Complete.Capture.{mark_success_inv}
use mallbyte_api.Payments.Lifecycle.{validate_order, create}
use mallbyte_api.Payments.Lifecycle.Attempts.{create_inv}

-- After a payment has completed, no user creates an attempt for its order, nor finds one to pay
-- with.
pub mark_success-excludes-create :
    (distinct : List ℕ → List ℕ) (now : ℕ) (reference : String) (confirmed_at : Option Moment)
    (pk : ℕ) (db db' : Market)
    → mark_success distinct now reference confirmed_at pk db ≡ ok db'
    → {p : Payment} → lookup pk db.payments ≡ some p
    → (user : User) (k : ℕ) (db'' : Market) → create user p.order db' ≢ ok (k, db'')
unfolding validate_order mark_paid with_total
mark_success-excludes-create distinct now reference confirmed_at pk db db' h {p} stored user k
      db'' =
    λ created.
      let c = mark_success_inv distinct now reference confirmed_at pk db db' h in
      let (order, found, valid, way) = create_inv user p.order db' created in
      let same : c.p ≡ p = ground (arith, c.stored) in
      let written : lookup c.p.order db'.orders ≡ some (mark_paid c.at c.order) =
        ap (lookup c.p.order) c.orders
        ∙ lookup-save_self c.p.order (mark_paid c.at c.order) c.order db.orders c.ordered in
      let paid : order ≡ mark_paid c.at c.order = ground (arith, found, written, same) in
      ground arith
