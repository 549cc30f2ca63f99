-- ===== src/Returns/Submit/Covered.antt =====
-- No more units of an item are returned than were ordered.
use mallbyte_api.Common.Account.{User}
use mallbyte_api.Common.Table.{lookup, save, lookup-save_self, lookup-save_ne, AllRows}
use mallbyte_api.Common.{
  ℕ, ◌+◌, ◌≤◌, ◌<◌, ◌≡◌, refl, ap, ◌∙◌, inl, inr, ◌&&◌, some, List, [], ◌∷◌, ◌++◌, arith, ◌==◌,
  if◌then◌else◌, Bool-cases, Option-cases, ok, Result-cases,
}
use mallbyte_api.Market.Row.{Order, OrderItem}
use mallbyte_api.Market.State.{Market}
use mallbyte_api.Returns.Row.{ReturnRequest, ReturnItem, Returns}
use mallbyte_api.Returns.Submit.{
  is_counted, get_already_returned_quantity, ItemData, returned_quantity, new_return_item,
  create_item, create_items, new_request, create_return_request,
}

-- The units of each order item that are returned are at most those that were ordered.
abbrev pub IsCovered : Market → Returns → Type 0
IsCovered db r =
    (k : ℕ) (i : OrderItem)
    → lookup k db.items ≡ some i
    → get_already_returned_quantity k r.requests r.items ≤ i.quantity

-- Every return item is of a request with a key that has been given.
abbrev pub IsFiled : Returns → Type 0
IsFiled r = AllRows (λ i. i.return_request < r.next_key) r.items

returned-append :
    (q k : ℕ) (rs : List (ℕ × ReturnRequest)) (is : List (ℕ × ReturnItem)) (i : ReturnItem)
    → get_already_returned_quantity q rs (is ++ (k, i) ∷ [])
      ≡ get_already_returned_quantity q rs is
        + (if (i.order_item == q) && is_counted rs i then i.quantity else 0)
unfolding get_already_returned_quantity
returned-append q k rs [] i = omega arith
returned-append q k rs ((j, a) ∷ is) i = omega (arith, returned-append q k rs is i)

-- A request under a new key counts no item that was there.
returned-fresh :
    (q n : ℕ) (request : ReturnRequest) (rs : List (ℕ × ReturnRequest)) (is : List (ℕ × ReturnItem))
    → AllRows (λ i. i.return_request < n) is
    → get_already_returned_quantity q ((n, request) ∷ rs) is ≡ get_already_returned_quantity q rs is
unfolding get_already_returned_quantity is_counted
returned-fresh q n request rs [] v = refl
returned-fresh q n request rs ((j, a) ∷ is) v = ground (arith, returned-fresh q n request rs is v.1)

-- A request that is saved with its status counts the same items.
returned-save :
    (q n : ℕ) (new old : ReturnRequest) (rs : List (ℕ × ReturnRequest)) (is : List (ℕ × ReturnItem))
    → lookup n rs ≡ some old
    → new.status ≡ old.status
    → get_already_returned_quantity q (save n new rs) is ≡ get_already_returned_quantity q rs is
unfolding get_already_returned_quantity is_counted
returned-save q n new old rs [] found same = refl
returned-save q n new old rs ((j, a) ∷ is) found same = ground (
  arith,
  returned-save q n new old rs is found same,
  lookup-save_self n new old rs found,
  lookup-save_ne n a.return_request new rs,
)

module _ (request order_pk : ℕ) (order : Order) (db : Market) where
  pub create_item_inv :
      (d : ItemData) (r r' : Returns) (amount : ℕ)
      → create_item request order_pk order db d r ≡ ok (amount, r')
      → (i : OrderItem) × (n : ℕ) × (lookup d.order_item db.items ≡ some i)
        × (get_already_returned_quantity d.order_item r.requests r.items + n ≤ i.quantity)
        × (r'.items ≡ r.items ++ (r.next_key, new_return_item request d.order_item n i) ∷ [])
        × (r'.next_key ≡ r.next_key + 1)
        × (r'.requests ≡ r.requests)
  unfolding create_item
  create_item_inv d r r' amount h = elim (Option-cases (lookup d.order_item db.items)) [
    | inl missing ↦ ground arith
    | inr (i, found) ↦ elim (Result-cases (returned_quantity d.quantity)) [
      | inr (e, raised) ↦ ground arith
      | inl (n, positive) ↦ (i, n, found, ground arith, ground arith, ground arith, ground arith)
    ]
  ]

  create_item-IsCovered :
      (d : ItemData) (r r' : Returns) (amount : ℕ)
      → create_item request order_pk order db d r ≡ ok (amount, r')
      → IsCovered db r
      → IsCovered db r'
  unfolding new_return_item
  create_item-IsCovered d r r' amount h covered q j at =
      let (i, n, found, room, items, next, requests) = create_item_inv d r r' amount h in
      let more =
        returned-append q r.next_key r.requests r.items
          (new_return_item request d.order_item n i) in
      rw (items, requests)
        (elim (Bool-cases (d.order_item == q)) [
          | inl here ↦ ground (arith, more, covered q j at)
          | inr away ↦ ground (arith, more, covered q j at)
        ])

  create_items-IsCovered :
      (ds : List ItemData) (total total' : ℕ) (r r' : Returns)
      → create_items request order_pk order db ds total r ≡ ok (total', r')
      → IsCovered db r
      → IsCovered db r' × (r'.requests ≡ r.requests)
  unfolding create_items
  create_items-IsCovered [] total total' r r' h covered =
      let same : r ≡ r' = ground arith in (rw (← same) covered, ground arith)
  create_items-IsCovered (d ∷ ds) total total' r r' h covered =
      elim (Result-cases (create_item request order_pk order db d r)) [
        | inr (e, raised) ↦ ground arith
        | inl ((amount, r₁), made) ↦
            let rest =
              create_items-IsCovered ds (total + amount) total' r₁ r' (ground arith)
                (create_item-IsCovered d r r₁ amount made covered) in
            let (i, n, found, room, items, next, requests) = create_item_inv d r r₁ amount made in
            (rest.0, rest.1 ∙ requests)
      ]

-- Where every return item is of a request whose key has been given, and of each order item at most
-- the ordered units are returned, at most the ordered units are still returned after a return
-- request is created, with the items of the new request.
pub create_return_request-IsCovered :
    (customer : User) (order_pk : ℕ) (ds : List ItemData) (db : Market) (r r' : Returns) (key : ℕ)
    → create_return_request customer order_pk ds db r ≡ ok (key, r')
    → IsFiled r
    → IsCovered db r
    → IsCovered db r'
unfolding create_return_request
create_return_request-IsCovered customer order_pk ds db r r' key h filed covered =
    elim (Option-cases (lookup order_pk db.orders)) [
      | inl missing ↦ ground arith
      | inr (order, stored) ↦
          let n = r.next_key in
          let row = new_request order_pk customer in
          let r₁ : Returns = record r { requests = (n, row) ∷ r.requests; next_key = n + 1 } in
          elim (Result-cases (create_items n order_pk order db ds 0 r₁)) [
            | inr (e, raised) ↦ ground arith
            | inl ((total, r₂), looped) ↦
                let start : IsCovered db r₁ = λ q i at.
                  omega (arith, covered q i at, returned-fresh q n row r.requests r.items filed) in
                let (all, requests) =
                  create_items-IsCovered n order_pk order db ds 0 total r₁ r₂ looped start in
                let new = record row { total_requested_amount = total } in
                let there : lookup n r₂.requests ≡ some row =
                  ap (lookup n) requests ∙ ground arith in
                let saved : r'.requests ≡ save n new r₂.requests = ground arith in
                let items : r'.items ≡ r₂.items = ground arith in
                λ q i at.
                  rw (saved, items)
                    (omega (
                      arith,
                      all q i at,
                      returned-save q n new row r₂.requests r₂.items there refl,
                    ))
          ]
    ]
