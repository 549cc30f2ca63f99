-- ===== src/Inventory/Movement/Effect.antt =====
-- What a stored movement does to the counters.
use mallbyte_api.Common.{
  ℕ, ◌≡◌, refl, ◌∙◌, ◌≢◌, ◌↔◌, ◌⊎◌, inl, inr, true, none, some, List, ◌∷◌, arith, Option-cases, ℤ,
  pos, pos_part, ◌+ℤ◌, ◌≤ℤ◌, +ℤ_parts, ok, Result-cases,
}
use mallbyte_api.Inventory.Stock.{Stock, IsSound, find_stock, save_stock}
use mallbyte_api.Inventory.Stock.Table.{
  AllSound, find_stock-at, find_stock-IsSound, save_stock-AllSound, find_stock-save_self,
  find_stock-save_ne,
}
use mallbyte_api.Inventory.Movement.{
  StockMovement, MovementType, Ledger, clean, get_or_create, moved_stock, create, in_increase_types,
  in_decrease_types,
}

-- The quantity at a place, 0 where there is no row.
abbrev pub quantity_at : ℕ → ℕ → List Stock → ℕ
quantity_at p w t = elim (find_stock p w t) [ none ↦ 0 | some s ↦ s.quantity ]

abbrev pub reserved_at : ℕ → ℕ → List Stock → ℕ
reserved_at p w t = elim (find_stock p w t) [ none ↦ 0 | some s ↦ s.reserved_quantity ]

-- A signed quantity that fits its type.
abbrev pub IsSigned : MovementType → ℤ → Type 0
IsSigned ty q =
    (q ≢ pos 0)
    × (in_increase_types ty ≡ true → pos 0 ≤ℤ q)
    × (in_decrease_types ty ≡ true → q ≤ℤ pos 0)

pub clean_iff : (m : StockMovement) → (clean m ≡ ok tt) ↔ IsSigned m.movement_type m.quantity
unfolding clean
clean_iff m = (λ h. ground arith, λ h. ground arith)

-- The row that `get_or_create` gives, and what it holds.
pub get_or_create-at :
    (m : StockMovement) (t : List Stock)
    → let (s, t') = get_or_create m t in
      (s.product ≡ m.product)
      × (s.warehouse ≡ m.warehouse)
      × (s.quantity ≡ quantity_at m.product m.warehouse t)
      × (s.reserved_quantity ≡ reserved_at m.product m.warehouse t)
      × (find_stock m.product m.warehouse t' ≡ some s)
unfolding get_or_create
get_or_create-at m t = elim (Option-cases (find_stock m.product m.warehouse t)) [
  | inl missing ↦ ground arith
  | inr (s, found) ↦ ground (arith, find_stock-at m.product m.warehouse s t)
]

pub get_or_create-AllSound :
    (m : StockMovement) (t : List Stock)
    → AllSound t
    → let (s, t') = get_or_create m t in IsSound s × AllSound t'
unfolding get_or_create
get_or_create-AllSound m t v = elim (Option-cases (find_stock m.product m.warehouse t)) [
  | inl missing ↦ ground arith
  | inr (s, found) ↦ ground (arith, find_stock-IsSound m.product m.warehouse s t v)
]

pub moved_stock_lem :
    (m : StockMovement) (s s' : Stock)
    → moved_stock m s ≡ ok s'
    → (pos s'.quantity ≡ pos s.quantity +ℤ m.quantity)
      × (s'.reserved_quantity ≡ s.reserved_quantity)
      × IsSound s'
      × (s'.product ≡ s.product)
      × (s'.warehouse ≡ s.warehouse)
unfolding moved_stock
moved_stock_lem m s s' h = ground (arith, +ℤ_parts (pos s.quantity) m.quantity)

-- A call of `create` that succeeds has passed `clean` and both guards on the row.
pub create_inv :
    (m : StockMovement) (l l' : Ledger)
    → create m l ≡ ok l'
    → let (s, t) = get_or_create m l.stocks in
      (s' : Stock) × (clean m ≡ ok tt)
      × (moved_stock m s ≡ ok s')
      × (l'.stocks ≡ save_stock m.product m.warehouse s' t)
      × (l'.movements
          ≡ (
            l.next_movement,
            record m { before_quantity = s.quantity; after_quantity = s'.quantity },
          )
            ∷ l.movements)
unfolding create
create_inv m l l' h = elim (Result-cases (clean m)) [
  | inr (e, raised) ↦ ground arith
  | inl (u, passed) ↦ elim (Result-cases (moved_stock m (get_or_create m l.stocks).0)) [
    | inr (e, raised) ↦ ground arith
    | inl (s', moved) ↦ (s', ground arith, moved, ground arith, ground arith)
  ]
]

-- A movement that is stored keeps `reserved_quantity <= quantity` on every row.
pub create-AllSound :
    (m : StockMovement) (l l' : Ledger)
    → create m l ≡ ok l'
    → AllSound l.stocks
    → AllSound l'.stocks
create-AllSound m l l' h v =
    let (s', passed, moved, stocks, log) = create_inv m l l' h in
    let (s, t) = get_or_create m l.stocks in
    rw stocks (
      save_stock-AllSound m.product m.warehouse s' t (get_or_create-AllSound m l.stocks v).1
        (moved_stock_lem m s s' moved).2)

-- A movement that is stored has a sign that fits its type, adds its signed quantity at its own
-- place, records what stood there before and after, and leaves the reservations there alone.
pub create_effect :
    (m : StockMovement) (l l' : Ledger)
    → create m l ≡ ok l'
    → IsSigned m.movement_type m.quantity
      × (pos (quantity_at m.product m.warehouse l'.stocks)
          ≡ pos (quantity_at m.product m.warehouse l.stocks) +ℤ m.quantity)
      × (reserved_at m.product m.warehouse l'.stocks ≡ reserved_at m.product m.warehouse l.stocks)
      × (l'.movements
          ≡ (
            l.next_movement,
            record m {
              before_quantity = quantity_at m.product m.warehouse l.stocks;
              after_quantity = quantity_at m.product m.warehouse l'.stocks;
            },
          )
            ∷ l.movements)
create_effect m l l' h =
    let (s', passed, moved, stocks, log) = create_inv m l l' h in
    let (s, t) = get_or_create m l.stocks in
    let at = get_or_create-at m l.stocks in
    let eff = moved_stock_lem m s s' moved in
    let found =
      find_stock-save_self m.product m.warehouse s' s t at.4 (eff.3 ∙ at.0) (eff.4 ∙ at.1) in
    ((clean_iff m).0 passed, ground arith, ground arith, ground arith)

get_or_create-elsewhere :
    (m : StockMovement) (t : List Stock) (p w : ℕ)
    → (m.product ≢ p) ⊎ (m.warehouse ≢ w)
    → find_stock p w (get_or_create m t).1 ≡ find_stock p w t
unfolding get_or_create
get_or_create-elsewhere m t p w ne = ground arith

create-find_stock_ne :
    (m : StockMovement) (l l' : Ledger) (p w : ℕ)
    → create m l ≡ ok l'
    → (m.product ≢ p) ⊎ (m.warehouse ≢ w)
    → find_stock p w l'.stocks ≡ find_stock p w l.stocks
create-find_stock_ne m l l' p w h ne =
    let (s', passed, moved, stocks, log) = create_inv m l l' h in
    let (s, t) = get_or_create m l.stocks in
    let at = get_or_create-at m l.stocks in
    let eff = moved_stock_lem m s s' moved in
    rw stocks (
      find_stock-save_ne m.product m.warehouse p w s' t ne (eff.3 ∙ at.0) (eff.4 ∙ at.1)
      ∙ get_or_create-elsewhere m l.stocks p w ne)

-- A movement that is stored changes the units and the reservations of no other place.
pub create_elsewhere :
    (m : StockMovement) (l l' : Ledger) (p w : ℕ)
    → create m l ≡ ok l'
    → (m.product ≢ p) ⊎ (m.warehouse ≢ w)
    → (quantity_at p w l'.stocks ≡ quantity_at p w l.stocks)
      × (reserved_at p w l'.stocks ≡ reserved_at p w l.stocks)
create_elsewhere m l l' p w h ne = ground (arith, create-find_stock_ne m l l' p w h ne)

create_needs :
    (m : StockMovement) (l : Ledger)
    → ((l' : Ledger) × (create m l ≡ ok l'))
    → IsSigned m.movement_type m.quantity
      × (pos (reserved_at m.product m.warehouse l.stocks)
          ≤ℤ pos (quantity_at m.product m.warehouse l.stocks) +ℤ m.quantity)
create_needs m l (l', h) =
    let (s', passed, moved, stocks, log) = create_inv m l l' h in
    let (s, t) = get_or_create m l.stocks in
    let at = get_or_create-at m l.stocks in
    let eff = moved_stock_lem m s s' moved in ((clean_iff m).0 passed, ground arith)

moved_stock_total :
    (m : StockMovement) (s : Stock)
    → pos s.reserved_quantity ≤ℤ pos s.quantity +ℤ m.quantity
    → (s' : Stock) × (moved_stock m s ≡ ok s')
unfolding moved_stock
moved_stock_total m s h = (
  record s { quantity = pos_part (pos s.quantity +ℤ m.quantity); updated_by = m.created_by },
  ground arith,
)

create_total :
    (m : StockMovement) (l : Ledger)
    → IsSigned m.movement_type m.quantity
      × (pos (reserved_at m.product m.warehouse l.stocks)
          ≤ℤ pos (quantity_at m.product m.warehouse l.stocks) +ℤ m.quantity)
    → (l' : Ledger) × (create m l ≡ ok l')
unfolding create
create_total m l (signed, covered) =
    let (s, t) = get_or_create m l.stocks in
    let at = get_or_create-at m l.stocks in
    let (s', moved) = moved_stock_total m s (rw (at.2, at.3) covered) in
    rw ((clean_iff m).1 signed, moved) (_, refl)

-- A movement is stored exactly when its sign fits its type and the new total
-- covers what is reserved.
pub create_succeeds_iff :
    (m : StockMovement) (l : Ledger)
    → ((l' : Ledger) × (create m l ≡ ok l')) ↔ (
        IsSigned m.movement_type m.quantity
        × (pos (reserved_at m.product m.warehouse l.stocks)
            ≤ℤ pos (quantity_at m.product m.warehouse l.stocks) +ℤ m.quantity))
create_succeeds_iff m l = (create_needs m l, create_total m l)
