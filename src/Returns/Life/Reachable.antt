-- ===== src/Returns/Life/Reachable.antt =====
-- The bound on returned units in every state that the services reach.
use mallbyte_api.Common.Account.{User}
use mallbyte_api.Common.Table.{lookup, AllRows}
use mallbyte_api.Common.{
  ℕ, ◌+◌, ◌<◌, ◌≡◌, inl, inr, List, [], ◌∷◌, ◌++◌, arith, Option-cases, ok, Result-cases,
}
use mallbyte_api.Market.Row.{Order}
use mallbyte_api.Market.State.{Market}
use mallbyte_api.Returns.Row.{ReturnItem, Returns}
use mallbyte_api.Returns.Submit.{
  ItemData, new_return_item, create_item, create_items, new_request, create_return_request,
}
use mallbyte_api.Returns.Submit.Covered.{
  IsCovered, IsFiled, create_item_inv, create_return_request-IsCovered,
}
use mallbyte_api.Returns.Life.{
  Step, Steps, stop, then, submitting, cancelling, approving, rejecting, receiving, refunding,
}
use mallbyte_api.Returns.Life.Kept.{Reviews-kept}
use mallbyte_api.Returns.Life.Reviews.{
  cancel-Reviews, approve-Reviews, reject-Reviews, receive-Reviews, refund-Reviews,
}

filed-append :
    (n k : ℕ) (is : List (ℕ × ReturnItem)) (i : ReturnItem)
    → AllRows (λ a. a.return_request < n) is
    → i.return_request < n
    → AllRows (λ a. a.return_request < n + 1) (is ++ (k, i) ∷ [])
filed-append n k [] i v h = (omega arith, tt)
filed-append n k ((j, a) ∷ is) i v h = (omega (arith, v.0), filed-append n k is i v.1 h)

filed-suc :
    (n : ℕ) (is : List (ℕ × ReturnItem))
    → AllRows (λ a. a.return_request < n) is
    → AllRows (λ a. a.return_request < n + 1) is
filed-suc n [] v = tt
filed-suc n ((j, a) ∷ is) v = (omega (arith, v.0), filed-suc n is v.1)

module _ (request order_pk : ℕ) (order : Order) (db : Market) where
  create_item-IsFiled :
      (d : ItemData) (r r' : Returns) (amount : ℕ)
      → create_item request order_pk order db d r ≡ ok (amount, r')
      → request < r.next_key
      → IsFiled r
      → (request < r'.next_key) × IsFiled r'
  unfolding new_return_item
  create_item-IsFiled d r r' amount h le v =
      let (i, n, found, room, items, next, requests) =
        create_item_inv request order_pk order db d r r' amount h in
      let new = new_return_item request d.order_item n i in
      (omega (arith, next), rw (items, next) (filed-append r.next_key r.next_key r.items new v le))

  create_items-IsFiled :
      (ds : List ItemData) (total total' : ℕ) (r r' : Returns)
      → create_items request order_pk order db ds total r ≡ ok (total', r')
      → request < r.next_key
      → IsFiled r
      → IsFiled r'
  unfolding create_items
  create_items-IsFiled [] total total' r r' h le v =
      let same : r ≡ r' = ground arith in rw (← same) v
  create_items-IsFiled (d ∷ ds) total total' r r' h le v =
      elim (Result-cases (create_item request order_pk order db d r)) [
        | inr (e, raised) ↦ ground arith
        | inl ((amount, r₁), made) ↦
            let (le₁, v₁) = create_item-IsFiled d r r₁ amount made le v in
            create_items-IsFiled ds (total + amount) total' r₁ r' (ground arith) le₁ v₁
      ]

create_return_request-IsFiled :
    (customer : User) (order_pk : ℕ) (ds : List ItemData) (db : Market) (r r' : Returns) (key : ℕ)
    → create_return_request customer order_pk ds db r ≡ ok (key, r')
    → IsFiled r
    → IsFiled r'
unfolding create_return_request
create_return_request-IsFiled customer order_pk ds db r r' key h filed =
    elim (Option-cases (lookup order_pk db.orders)) [
      | inl missing ↦ ground arith
      | inr (order, stored) ↦
          let n = r.next_key in
          let row = new_request order_pk customer in
          let r₁ : Returns = record r { requests = (n, row) ∷ r.requests; next_key = n + 1 } in
          elim (Result-cases (create_items n order_pk order db ds 0 r₁)) [
            | inr (e, raised) ↦ ground arith
            | inl ((total, r₂), looped) ↦
                let all =
                  create_items-IsFiled n order_pk order db ds 0 total r₁ r₂ looped (omega arith)
                    (filed-suc n r.items filed) in
                let items : r'.items ≡ r₂.items = ground arith in
                let next : r'.next_key ≡ r₂.next_key = ground arith in rw (items, next) all
          ]
    ]

Step-kept :
    {db : Market} {r r' : Returns}
    → Step db r r'
    → IsFiled r × IsCovered db r
    → IsFiled r' × IsCovered db r'
Step-kept {db} {r} {r'} (submitting customer order key items h) v = (
  create_return_request-IsFiled customer order items db r r' key h v.0,
  create_return_request-IsCovered customer order items db r r' key h v.0 v.1,
)
Step-kept {db} {r} {r'} (cancelling user now pk h) v =
    Reviews-kept db r r' (cancel-Reviews user now pk r r' h) v
Step-kept {db} {r} {r'} (approving user now amount pk h) v =
    Reviews-kept db r r' (approve-Reviews user now amount pk r r' h) v
Step-kept {db} {r} {r'} (rejecting user now pk h) v =
    Reviews-kept db r r' (reject-Reviews user now pk r r' h) v
Step-kept {db} {r} {r'} (receiving user now pk h) v =
    Reviews-kept db r r' (receive-Reviews user now pk r r' h) v
Step-kept {db} {r} {r'} (refunding user now pk h) v =
    Reviews-kept db r r' (refund-Reviews user now pk r r' h) v

-- Whatever services succeed one after another, from tables in which every return item is of a
-- request whose key has been given and of each order item at most the ordered units are returned:
-- both still hold of the tables that they reach.
pub reachable-IsCovered :
    {db : Market} {r r' : Returns}
    → Steps db r r'
    → IsFiled r × IsCovered db r
    → IsFiled r' × IsCovered db r'
reachable-IsCovered stop v = v
reachable-IsCovered (then step steps) v = reachable-IsCovered steps (Step-kept step v)
