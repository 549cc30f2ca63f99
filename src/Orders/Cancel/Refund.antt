-- ===== src/Orders/Cancel/Refund.antt =====
-- The discount of a cancelled order may be used again.
use mallbyte_api.Common.Table.{lookup}
use mallbyte_api.Common.{
  ℕ, ◌+◌, ◌-◌, ◌≤◌, ◌<◌, ◌≡◌, sym, ap, ◌∙◌, Option, ok, inl, inr, ◌&&◌, some, List, [], ◌∷◌, arith,
  ltb, ◌==◌, if◌then◌else◌, Bool-cases, Option-cases,
}
use mallbyte_api.Market.Row.{Discount, DiscountUsage}
use mallbyte_api.Market.State.{Market}
use mallbyte_api.Discounts.{count_usages}
use mallbyte_api.Discounts.Service.Usage.{usages_of, AllCounted}
use mallbyte_api.Orders.Cancel.{usage_of, delete_usage, give_back, return_discount, cancel}
use mallbyte_api.Orders.Cancel.Effect.{cancel_inv}

abbrev given_back : ℕ → ℕ → Discount → Discount
given_back pk k d =
    if (k == pk) && ltb 0 d.used_count then record d { used_count = d.used_count - 1 } else d

lookup-give_back :
    (pk q : ℕ) (ds : List (ℕ × Discount)) (d : Discount)
    → lookup q (give_back pk ds) ≡ some d
    → (old : Discount) × (lookup q ds ≡ some old) × (d ≡ given_back pk q old)
unfolding give_back
lookup-give_back pk q [] d h = cc
lookup-give_back pk q ((k, r) ∷ ds) d h = elim (Bool-cases (q == k)) [
  | inl here ↦ (r, ground arith, ground arith)
  | inr away ↦
      let (old, found, same) = lookup-give_back pk q ds d (ground arith) in
      (old, ground arith, same)
]

delete_usage-counts :
    (order : ℕ) (u : DiscountUsage) (us : List (ℕ × DiscountUsage)) (q v : ℕ)
    → usage_of order us ≡ some u
    → (usages_of q (delete_usage order us) + (if u.discount == q then 1 else 0) ≡ usages_of q us)
      × (count_usages q v (delete_usage order us) ≤ count_usages q v us)
unfolding usage_of delete_usage count_usages
delete_usage-counts order u [] q v h = cc
delete_usage-counts order u ((k, r) ∷ us) q v h = ground (arith, delete_usage-counts order u us q v)

pub return_discount-AllCounted :
    (pk : ℕ) (db : Market) → AllCounted db → AllCounted (return_discount pk db)
unfolding return_discount
return_discount-AllCounted pk db all = elim (Option-cases (usage_of pk db.usages)) [
  | inl unused ↦ rw (unused, return_discount) all
  | inr (u, used) ↦
      rw (used, return_discount)
        (λ q d found.
          let (old, stored, same) = lookup-give_back u.discount q db.discounts d found in
          let counted = all q old stored in
          record {
            counted = ground (arith, counted.counted, delete_usage-counts pk u db.usages q 0 used);
            within = λ n limit. ground (arith, counted.within n);
            each = λ n v limit.
                ground (arith, counted.each n v, delete_usage-counts pk u db.usages q v used);
          })
]

-- The usage rows of an order.
abbrev pub uses_of : ℕ → List (ℕ × DiscountUsage) → ℕ
uses_of order [] = 0
uses_of order ((k, u) ∷ us) = (if u.order == order then 1 else 0) + uses_of order us

uses_of-none :
    (order k : ℕ) (u : DiscountUsage) (us : List (ℕ × DiscountUsage))
    → lookup k us ≡ some u
    → u.order ≡ order
    → 0 < uses_of order us
uses_of-none order k u [] h e = cc
uses_of-none order k u ((j, r) ∷ us) h e = ground (arith, uses_of-none order k u us)

-- The only usage row of an order is the one that is found, and deleted.
usage_of-only :
    (order k : ℕ) (u : DiscountUsage) (us : List (ℕ × DiscountUsage))
    → lookup k us ≡ some u
    → u.order ≡ order
    → uses_of order us ≤ 1
    → (usage_of order us ≡ some u) × (uses_of order (delete_usage order us) ≡ 0)
unfolding usage_of delete_usage
usage_of-only order k u [] h e only = cc
usage_of-only order k u ((j, r) ∷ us) h e only =
    ground (arith, usage_of-only order k u us, uses_of-none order k u us)

lookup-give_back_self :
    (pk : ℕ) (ds : List (ℕ × Discount)) (d : Discount)
    → lookup pk ds ≡ some d
    → lookup pk (give_back pk ds) ≡ some (given_back pk pk d)
unfolding give_back
lookup-give_back_self pk [] d h = cc
lookup-give_back_self pk ((k, r) ∷ ds) d h = ground (arith, lookup-give_back_self pk ds d)

return_discount-found :
    (pk : ℕ) (u : DiscountUsage) (db : Market)
    → usage_of pk db.usages ≡ some u
    → ((return_discount pk db).usages ≡ delete_usage pk db.usages)
      × ((return_discount pk db).discounts ≡ give_back u.discount db.discounts)
unfolding return_discount
return_discount-found pk u db e = (ground arith, ground arith)

AllCounted-same :
    (db db' : Market)
    → db'.usages ≡ db.usages
    → db'.discounts ≡ db.discounts
    → AllCounted db
    → AllCounted db'
AllCounted-same db db' usages discounts all q d found =
    let old = all q d (ap (lookup q) (sym discounts) ∙ found) in
    record { counted = rw usages old.counted; within = old.within; each = rw usages old.each }

-- Where every discount counts its usage rows and is within its limits, and an order has one usage
-- row, of a stored discount: a cancellation of the order that succeeds leaves it no usage row, counts
-- the discount as used once less, and every discount still counts its usage rows and is within its
-- limits.
pub cancel-gives_back :
    (user : Option ℕ) (now pk : ℕ) (db db' : Market)
    → cancel user now pk db ≡ ok db'
    → AllCounted db
    → (k : ℕ) {u : DiscountUsage} {d : Discount} → lookup k db.usages ≡ some u
    → u.order ≡ pk
    → uses_of pk db.usages ≤ 1
    → lookup u.discount db.discounts ≡ some d
    → (uses_of pk db'.usages ≡ 0)
      × ((n : ℕ) × (d.used_count ≡ n + 1)
          × (lookup u.discount db'.discounts ≡ some (record d { used_count = n })))
      × AllCounted db'
cancel-gives_back user now pk db db' h all k {u} {d} used of only stored =
    let (order, ordered, waits, unsettled, released, payments, orders, log, usages, discounts) =
      cancel_inv user now pk db db' h in
    let (found, none_left) = usage_of-only pk k u db.usages used of only in
    let (deleted, lowered) = return_discount-found pk u db found in
    let counted = (all u.discount d stored).counted in
    let more = (delete_usage-counts pk u db.usages u.discount 0 found).0 in
    (
      ap (uses_of pk) (usages ∙ deleted) ∙ none_left,
      (
        d.used_count - 1,
        ground (arith, counted, more),
        ap (lookup u.discount) (discounts ∙ lowered)
            ∙ lookup-give_back_self u.discount db.discounts d stored
            ∙ ground (arith, counted, more),
      ),
      AllCounted-same (return_discount pk db) db' usages discounts
          (return_discount-AllCounted pk db all),
    )
