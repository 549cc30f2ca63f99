-- ===== src/Returns/Review/Effect.antt =====
-- What an approval leaves in the tables.
use mallbyte_api.Common.Account.{User}
use mallbyte_api.Common.Table.{lookup, lookup-save_self, IsKeyed}
use mallbyte_api.Common.{
  ℕ, ◌≤◌, ◌≡◌, refl, inl, inr, true, Option, some, arith, Option-cases, ℤ, ok, pos_part,
}
use mallbyte_api.Returns.Row.{Status, ReturnRequest, Returns}
use mallbyte_api.Returns.Review.{
  is_reviewable, moved, requested_total, approve_return_request, amount_or,
}
use mallbyte_api.Returns.Review.Allocation.{approved_total, allocate_exact}

-- Where an approval succeeds and the items have keys of their own, the request was in review and
-- its items ask for its total; it is stored as approved with an amount of at most that total, and
-- the approved amounts of its items sum to the approved amount of the request.
pub approve_return_request_effect :
    (user : User) (now : ℕ) (amount : Option ℤ) (pk : ℕ) (r r' : Returns)
    → approve_return_request user now amount pk r ≡ ok r'
    → IsKeyed r.items
    → (old new : ReturnRequest) × (lookup pk r.requests ≡ some old)
      × (is_reviewable old.status ≡ true)
      × (requested_total pk r.items ≡ old.total_requested_amount)
      × (lookup pk r'.requests ≡ some new)
      × (new.status ≡ Status.approved)
      × (new.total_approved_amount ≤ new.total_requested_amount)
      × (approved_total pk r'.items ≡ new.total_approved_amount)
unfolding approve_return_request moved
approve_return_request_effect user now amount pk r r' h keyed =
    elim (Option-cases (lookup pk r.requests)) [
      | inl missing ↦ ground arith
      | inr (old, stored) ↦
          let total = requested_total pk r.items in
          let approved = pos_part (amount_or total amount) in
          let new : ReturnRequest = record old {
            status = Status.approved;
            total_approved_amount = approved;
            reviewed_by = some user.id;
            reviewed_at = some now;
          } in
          let le : approved ≤ total = ground arith in
          (
            old,
            new,
            stored,
            ground arith,
            ground arith,
            ground (arith, lookup-save_self pk new old r.requests stored),
            refl,
            ground arith,
            ground (arith, allocate_exact pk approved r.items keyed le),
          )
    ]
