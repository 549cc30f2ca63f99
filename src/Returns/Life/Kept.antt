-- ===== src/Returns/Life/Kept.antt =====
-- What every service keeps: the bound on returned units, and the keys of the requests.
use mathlib.Core.Path.{subst}
use mallbyte_api.Common.Table.{lookup, save, lookup-save_ne, AllRows}
use mallbyte_api.Common.{
  ℕ, ◌+◌, ◌≤◌, ◌<◌, ◌≡◌, refl, sym, ap, ◌∙◌, inl, inr, true, false, Option, some, List, [], ◌∷◌,
  arith, ◌==◌, if◌then◌else◌, Bool, not, none, Bool-cases,
}
use mallbyte_api.Market.State.{Market}
use mallbyte_api.Returns.Row.{ReturnRequest, ReturnItem, Returns}
use mallbyte_api.Returns.Submit.{is_dropped, is_counted, get_already_returned_quantity}
use mallbyte_api.Returns.Submit.Covered.{IsCovered, IsFiled}
use mallbyte_api.Returns.Review.{mark_items, item_amount, allocate}

-- The items with their request, their order item and their units, row by row.
abbrev pub AgreeOn : List (ℕ × ReturnItem) → List (ℕ × ReturnItem) → Type 0
AgreeOn [] [] = Unit
AgreeOn ((k, i) ∷ is) ((j, a) ∷ bs) =
    ((i.return_request ≡ a.return_request)
      × (i.order_item ≡ a.order_item)
      × (i.quantity ≡ a.quantity))
    × AgreeOn is bs
AgreeOn [] (a ∷ bs) = true ≡ false
AgreeOn (i ∷ is) [] = true ≡ false

pub mark_items-AgreeOn :
    (pk : ℕ) (write : ReturnItem → ReturnItem) (is : List (ℕ × ReturnItem))
    → ((i : ReturnItem)
        → ((write i).return_request ≡ i.return_request)
          × ((write i).order_item ≡ i.order_item)
          × ((write i).quantity ≡ i.quantity))
    → AgreeOn (mark_items pk write is) is
unfolding mark_items
mark_items-AgreeOn pk write [] keep = tt
mark_items-AgreeOn pk write ((k, i) ∷ is) keep =
    (ground (arith, keep i), mark_items-AgreeOn pk write is keep)

pub allocate-AgreeOn :
    (pk approved total : ℕ) (last : Option ℕ) (is : List (ℕ × ReturnItem)) (allocated : ℕ)
    → AgreeOn (allocate pk approved total last allocated is) is
unfolding allocate
allocate-AgreeOn pk approved total last [] allocated = tt
allocate-AgreeOn pk approved total last ((k, i) ∷ is) allocated =
    let amount =
      if i.return_request == pk then item_amount approved total last allocated k i else 0 in
    (ground arith, allocate-AgreeOn pk approved total last is (allocated + amount))

returned-AgreeOn :
    (q : ℕ) (rs : List (ℕ × ReturnRequest)) (is bs : List (ℕ × ReturnItem))
    → AgreeOn is bs
    → get_already_returned_quantity q rs is ≡ get_already_returned_quantity q rs bs
unfolding get_already_returned_quantity is_counted
returned-AgreeOn q rs [] [] v = refl
returned-AgreeOn q rs [] (a ∷ bs) v = cc
returned-AgreeOn q rs (i ∷ is) [] v = cc
returned-AgreeOn q rs ((k, i) ∷ is) ((j, a) ∷ bs) ((x, y, z), v) =
    rw (x, y, z, returned-AgreeOn q rs is bs v) refl

filed-AgreeOn :
    (n : ℕ) (is bs : List (ℕ × ReturnItem))
    → AgreeOn is bs
    → AllRows (λ i. i.return_request < n) bs
    → AllRows (λ i. i.return_request < n) is
filed-AgreeOn n [] [] v w = tt
filed-AgreeOn n [] (a ∷ bs) v w = tt
filed-AgreeOn n (i ∷ is) [] v w = cc
filed-AgreeOn n ((k, i) ∷ is) ((j, a) ∷ bs) ((x, y, z), v) (w, ws) =
    (rw x w, filed-AgreeOn n is bs v ws)

-- A request that was counted counts as many units or none after its change.
counted_moved :
    (n : ℕ) (new old : ReturnRequest) (rs : List (ℕ × ReturnRequest)) (i : ReturnItem)
    → lookup n rs ≡ some old
    → is_dropped old.status ≡ false
    → is_counted (save n new rs) i ≡ true
    → is_counted rs i ≡ true
unfolding is_counted
counted_moved n new old rs i found was h = elim (Bool-cases (i.return_request == n)) [
  | inl here ↦
      let same : lookup i.return_request rs ≡ some old =
        ap (λ k. lookup k rs) (ground arith) ∙ found in
      ground (arith, same)
  | inr away ↦
      subst
        (λ o. elim o as (λ x. Bool) [ none ↦ false | some r ↦ not (is_dropped r.status) ] ≡ true)
        (lookup-save_ne n i.return_request new rs (ground arith)) h
]

returned-moved :
    (q n : ℕ) (new old : ReturnRequest) (rs : List (ℕ × ReturnRequest)) (is : List (ℕ × ReturnItem))
    → lookup n rs ≡ some old
    → is_dropped old.status ≡ false
    → get_already_returned_quantity q (save n new rs) is ≤ get_already_returned_quantity q rs is
unfolding get_already_returned_quantity
returned-moved q n new old rs [] found was = omega arith
returned-moved q n new old rs ((j, a) ∷ is) found was =
    ground
      (arith, returned-moved q n new old rs is found was, counted_moved n new old rs a found was)

-- A service that moves a counted request, and agrees on the items.
abbrev pub Reviews : Returns → Returns → Type 0
Reviews r r' =
    (pk : ℕ) × (old new : ReturnRequest) × (lookup pk r.requests ≡ some old)
    × (is_dropped old.status ≡ false)
    × (r'.requests ≡ save pk new r.requests)
    × AgreeOn r'.items r.items
    × (r'.next_key ≡ r.next_key)

pub Reviews-kept :
    (db : Market) (r r' : Returns)
    → Reviews r r'
    → IsFiled r × IsCovered db r
    → IsFiled r' × IsCovered db r'
Reviews-kept db r r' (pk, old, new, stored, was, requests, items, next) (filed, covered) = (
  subst (λ n. AllRows (λ i. i.return_request < n) r'.items) (sym next)
      (filed-AgreeOn r.next_key r'.items r.items items filed),
  λ q i at. rw requests (
      omega (
        arith,
        covered q i at,
        returned-AgreeOn q (save pk new r.requests) r'.items r.items items,
        returned-moved q pk new old r.requests r.items stored was,
      )),
)
