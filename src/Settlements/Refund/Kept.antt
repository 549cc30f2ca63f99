-- ===== src/Settlements/Refund/Kept.antt =====
-- Every refund that succeeds keeps the refunds of each allocation within what it charged.

use mathlib.Core.Path.{subst}
use mallbyte_api.Common.Table.{lookup, IsKeyed}
use mallbyte_api.Common.{
  ℕ, ◌≡◌, ◌≢◌, refl, ap, sym, ◌∙◌, inl, inr, false, Option, some, List, [], ◌∷◌, ◌==◌, ok, arith,
  Option-cases, Bool-cases, Result-cases,
}
use mallbyte_api.Market.Row.{OrderItem}
use mallbyte_api.Returns.Row.{ReturnItem}
use mallbyte_api.Settlements.Row.{ItemAllocation, ConfirmedRefund, RefundAllocation}
use mallbyte_api.Settlements.Refund.Line.{
  RefundLine, Refunded, find_allocation, find_return_item, refund_line, refund_lines,
}
use mallbyte_api.Settlements.Refund.Check.{has_line, repeats}
use mallbyte_api.Settlements.Refund.Post.{refund_row, store_rows}
use mallbyte_api.Settlements.Refund.Within.{
  totals, IsWithin, added, totals-hit, totals-miss, refund_line-key, refund_line-IsWithin,
}

find_allocation-row :
    (item order j : ℕ) (items : List (ℕ × OrderItem)) (rows : List (ℕ × ItemAllocation))
    (c : ItemAllocation)
    → IsKeyed rows
    → find_allocation item order items rows ≡ some (j, c)
    → (c.order_item ≡ item) × (lookup j rows ≡ some c)
unfolding find_allocation
find_allocation-row item order j items [] c v h = cc
find_allocation-row item order j items ((i, a) ∷ rows) c v h =
    ground (arith, find_allocation-row item order j items rows c v.1)

same_item :
    (a c : ItemAllocation) (item : ℕ) (o : Option ItemAllocation)
    → o ≡ some a
    → o ≡ some c
    → c.order_item ≡ item
    → a.order_item ≡ item
same_item a c item o h g e = cc

some_eq : (o : Option ItemAllocation) (c a : ItemAllocation) → o ≡ some c → o ≡ some a → c ≡ a
some_eq o c a h g = cc

pair_eq :
    (j k : ℕ) (c a : ItemAllocation) → j ≡ k → c ≡ a → ◌≡◌ {A = ℕ × ItemAllocation} (j, c) (k, a)
pair_eq j k c a e f = cc

same_row :
    (j k : ℕ) (c a : ItemAllocation) (rows : List (ℕ × ItemAllocation))
    → j ≡ k
    → lookup j rows ≡ some c
    → lookup k rows ≡ some a
    → ◌≡◌ {A = ℕ × ItemAllocation} (j, c) (k, a)
same_row j k c a rows e h g =
    pair_eq j k c a e (some_eq (lookup k rows) c a (ap (λ n. lookup n rows) (sym e) ∙ h) g)

no_line :
    (line : RefundLine) (lines : List RefundLine)
    → repeats (line ∷ lines) ≡ false
    → has_line line.order_item lines ≡ false
unfolding repeats
no_line line lines h = ground arith

module _ (order request : ℕ) (items : List (ℕ × OrderItem)) (rows : List (ℕ × ItemAllocation))
    (keyed : IsKeyed rows) (returned : List (ℕ × ReturnItem)) (refunds : List (ℕ × ConfirmedRefund))
    (prior : List RefundAllocation) where
  record Round (line : RefundLine) (lines : List RefundLine) (done : List Refunded) : Type 0 where
    key : ℕ
    allocation : ItemAllocation
    found : find_allocation line.order_item order items rows ≡ some (key, allocation)
    item : ReturnItem
    first : Refunded
    first_ok : refund_line request (key, allocation) item refunds prior line ≡ ok first
    rest : List Refunded
    rest_ok : refund_lines order request items rows returned refunds prior lines ≡ ok rest
    same : done ≡ first ∷ rest

  round :
      (line : RefundLine) (lines : List RefundLine) (done : List Refunded)
      → refund_lines order request items rows returned refunds prior (line ∷ lines) ≡ ok done
      → Round line lines done
  unfolding refund_lines
  round line lines done h = elim (Option-cases (find_allocation line.order_item order items rows)) [
    | inl missing ↦ ground arith
    | inr ((j, c), found) ↦
        elim (Option-cases (find_return_item line.order_item request returned)) [
          | inl missing ↦ ground arith
          | inr (item, held) ↦
              elim (Result-cases (refund_line request (j, c) item refunds prior line)) [
                | inr (failure, bad) ↦ ground arith
                | inl (x, fine) ↦
                    elim (Result-cases
                      (refund_lines order request items rows returned refunds prior lines)) [
                        | inr (failure, bad) ↦ ground arith
                        | inl (rest, rest_fine) ↦ record {
                          key = j;
                          allocation = c;
                          found = found;
                          item = item;
                          first = x;
                          first_ok = fine;
                          rest = rest;
                          rest_ok = rest_fine;
                          same = ground arith;
                        }
                      ]
              ]
        ]
  ]

  nothing_done :
      (done : List Refunded)
      → refund_lines order request items rows returned refunds prior [] ≡ ok done
      → [] ≡ done
  unfolding refund_lines
  nothing_done done h = cc

  -- A line of another item is not of the allocation.
  other_key :
      (k : ℕ) (a : ItemAllocation) (line : RefundLine) (lines : List RefundLine)
      (done : List Refunded) (r : Round line lines done)
      → lookup k rows ≡ some a
      → a.order_item ≢ line.order_item
      → r.first.key ≢ k
  other_key k a line lines done r at differs e =
      let (item, stored) =
        find_allocation-row line.order_item order r.key items rows r.allocation keyed r.found in
      let key =
        refund_line-key request r.key r.allocation r.item refunds prior line r.first r.first_ok in
      differs (
        same_item a r.allocation line.order_item (lookup k rows) at
          (ap (λ n. lookup n rows) (sym e ∙ key) ∙ stored) item)

  -- The lines of other items leave the totals of an allocation as they are.
  others-miss :
      (pk k : ℕ) (a : ItemAllocation) (lines : List RefundLine) (done : List Refunded)
      (rs : List RefundAllocation)
      → lookup k rows ≡ some a
      → has_line a.order_item lines ≡ false
      → refund_lines order request items rows returned refunds prior lines ≡ ok done
      → totals k (store_rows pk done rs) ≡ totals k rs
  unfolding store_rows has_line
  others-miss pk k a [] done rs at absent h =
      subst (λ d. totals k (store_rows pk d rs) ≡ totals k rs) (nothing_done done h) refl
  others-miss pk k a (line ∷ lines) done rs at absent h =
      let r = round line lines done h in
      let key = other_key k a line lines done r at (λ e. ground arith) in
      subst (λ d. totals k (store_rows pk d rs) ≡ totals k rs) (sym r.same)
        (others-miss pk k a lines r.rest (refund_row pk r.first ∷ rs) at (ground arith) r.rest_ok
          ∙ totals-miss k pk r.first rs key)

  pub refund_lines-IsWithin :
      (pk k : ℕ) (a : ItemAllocation) (lines : List RefundLine) (done : List Refunded)
      (rs : List RefundAllocation)
      → lookup k rows ≡ some a
      → repeats lines ≡ false
      → refund_lines order request items rows returned refunds prior lines ≡ ok done
      → totals k rs ≡ totals k prior
      → IsWithin a (totals k prior)
      → IsWithin a (totals k (store_rows pk done rs))
  unfolding store_rows repeats
  refund_lines-IsWithin pk k a [] done rs at distinct h same v =
      subst (λ d. IsWithin a (totals k (store_rows pk d rs))) (nothing_done done h)
        (subst (IsWithin a) (sym same) v)
  refund_lines-IsWithin pk k a (line ∷ lines) done rs at distinct h same v =
      let r = round line lines done h in
      let (item, stored) =
        find_allocation-row line.order_item order r.key items rows r.allocation keyed r.found in
      let key =
        refund_line-key request r.key r.allocation r.item refunds prior line r.first r.first_ok in
      subst (λ d. IsWithin a (totals k (store_rows pk d rs))) (sym r.same)
        (elim (Bool-cases (r.key == k)) [
          | inl hit ↦
              let here : r.key ≡ k = ground arith in
              let row = same_row r.key k r.allocation a rows here stored at in
              let absent : has_line a.order_item lines ≡ false =
                subst (λ n. has_line n lines ≡ false)
                  (sym (ap (λ p. p.1.order_item) (sym row) ∙ item)) (no_line line lines distinct) in
              let fine =
                ap (λ p. refund_line request p r.item refunds prior line) (sym row) ∙ r.first_ok in
              let (again, within) =
                refund_line-IsWithin request k a r.item refunds prior line r.first fine v in
              subst (IsWithin a)
                (sym (
                  others-miss pk k a lines r.rest (refund_row pk r.first ∷ rs) at absent r.rest_ok
                  ∙ totals-hit k pk r.first rs again
                  ∙ ap (added r.first) same))
                within
          | inr miss ↦
              refund_lines-IsWithin pk k a lines r.rest (refund_row pk r.first ∷ rs) at
                (ground arith) r.rest_ok (totals-miss k pk r.first rs (λ e. ground arith) ∙ same) v
        ])
