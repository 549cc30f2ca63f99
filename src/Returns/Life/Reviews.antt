-- ===== src/Returns/Life/Reviews.antt =====
-- Each service on a stored request moves a request that is neither rejected nor cancelled.

use mallbyte_api.Common.Account.{User}
use mallbyte_api.Common.Table.{lookup}
use mallbyte_api.Common.{
  ℕ, ◌≡◌, refl, ℤ, pos_part, inl, inr, Option, some, List, [], ◌∷◌, arith, Option-cases, ok,
}
use mallbyte_api.Returns.Row.{ItemStatus, received, item_received, Status, ReturnItem, Returns}
use mallbyte_api.Returns.Review.{
  moved, requested_total, amount_or, last_funded_id, mark_items, allocate, cancel_return_request,
  approve_return_request, reject_return_request, mark_return_item_received, mark_return_refunded,
}
use mallbyte_api.Returns.Life.Kept.{AgreeOn, mark_items-AgreeOn, allocate-AgreeOn, Reviews}

same_items : (is : List (ℕ × ReturnItem)) → AgreeOn is is
same_items [] = tt
same_items ((k, i) ∷ is) = ((refl, refl, refl), same_items is)

pub cancel-Reviews :
    (user : User) (now pk : ℕ) (r r' : Returns)
    → cancel_return_request user now pk r ≡ ok r'
    → Reviews r r'
unfolding cancel_return_request moved
cancel-Reviews user now pk r r' h = elim (Option-cases (lookup pk r.requests)) [
  | inl missing ↦ ground arith
  | inr (old, stored) ↦
      let same : r'.items ≡ r.items = ground arith in
      (
        pk,
        old,
        record old { status = Status.cancelled; closed_at = some now },
        stored,
        ground arith,
        ground arith,
        rw same (same_items r.items),
        ground arith,
      )
]

pub approve-Reviews :
    (user : User) (now : ℕ) (amount : Option ℤ) (pk : ℕ) (r r' : Returns)
    → approve_return_request user now amount pk r ≡ ok r'
    → Reviews r r'
unfolding approve_return_request moved
approve-Reviews user now amount pk r r' h = elim (Option-cases (lookup pk r.requests)) [
  | inl missing ↦ ground arith
  | inr (old, stored) ↦
      let total = requested_total pk r.items in
      let approved = pos_part (amount_or total amount) in
      let same : r'.items ≡ allocate pk approved total (last_funded_id pk r.items) 0 r.items =
        ground arith in
      (
        pk,
        old,
        record old {
          status = Status.approved;
          total_approved_amount = approved;
          reviewed_by = some user.id;
          reviewed_at = some now;
        },
        stored,
        ground arith,
        ground arith,
        rw same (allocate-AgreeOn pk approved total (last_funded_id pk r.items) r.items 0),
        ground arith,
      )
]

pub reject-Reviews :
    (user : User) (now pk : ℕ) (r r' : Returns)
    → reject_return_request user now pk r ≡ ok r'
    → Reviews r r'
unfolding reject_return_request moved
reject-Reviews user now pk r r' h = elim (Option-cases (lookup pk r.requests)) [
  | inl missing ↦ ground arith
  | inr (old, stored) ↦
      let write : ReturnItem → ReturnItem =
        λ i. record i { status = ItemStatus.rejected; approved_refund_amount = 0 } in
      let same : r'.items ≡ mark_items pk write r.items = ground arith in
      (
        pk,
        old,
        record old {
          status = Status.rejected;
          total_approved_amount = 0;
          reviewed_by = some user.id;
          reviewed_at = some now;
          closed_at = some now;
        },
        stored,
        ground arith,
        ground arith,
        rw same (mark_items-AgreeOn pk write r.items (λ i. (refl, refl, refl))),
        ground arith,
      )
]

pub receive-Reviews :
    (user : User) (now pk : ℕ) (r r' : Returns)
    → mark_return_item_received user now pk r ≡ ok r'
    → Reviews r r'
unfolding mark_return_item_received moved
receive-Reviews user now pk r r' h = elim (Option-cases (lookup pk r.requests)) [
  | inl missing ↦ ground arith
  | inr (old, stored) ↦
      let write : ReturnItem → ReturnItem = λ i. record i { status = received } in
      let same : r'.items ≡ mark_items pk write r.items = ground arith in
      (
        pk,
        old,
        record old { status = item_received },
        stored,
        ground arith,
        ground arith,
        rw same (mark_items-AgreeOn pk write r.items (λ i. (refl, refl, refl))),
        ground arith,
      )
]

pub refund-Reviews :
    (user : User) (now pk : ℕ) (r r' : Returns)
    → mark_return_refunded user now pk r ≡ ok r'
    → Reviews r r'
unfolding mark_return_refunded moved
refund-Reviews user now pk r r' h = elim (Option-cases (lookup pk r.requests)) [
  | inl missing ↦ ground arith
  | inr (old, stored) ↦
      let write : ReturnItem → ReturnItem = λ i. record i { status = ItemStatus.refunded } in
      let same : r'.items ≡ mark_items pk write r.items = ground arith in
      (
        pk,
        old,
        record old { status = Status.refunded; closed_at = some now },
        stored,
        ground arith,
        ground arith,
        rw same (mark_items-AgreeOn pk write r.items (λ i. (refl, refl, refl))),
        ground arith,
      )
]
