-- ===== src/Payments/Complete/Sale.antt =====
-- What the completion of a payment does to the stock.
use mallbyte_api.Common.{
  ℕ, ◌+◌, ◌≡◌, ap, ◌∙◌, inl, inr, ◌&&◌, some, List, [], ◌∷◌, arith, ◌==◌, if◌then◌else◌, Bool-cases,
  Option-cases, is_id, pos, int_laws, ok, Result-cases,
}
use mallbyte_api.Inventory.Stock.{Stock, release_reservation, with_stock}
use mallbyte_api.Inventory.Stock.Table.{AllSound, with_stock-AllSound}
use mallbyte_api.Inventory.Stock.Reservation.{release-IsSound}
use mallbyte_api.Inventory.Movement.{Ledger, create}
use mallbyte_api.Inventory.Movement.Effect.{
  quantity_at, reserved_at, create_effect, create_elsewhere, create-AllSound,
}
use mallbyte_api.Inventory.Movement.Audit.{IsRecorded, create-IsRecorded}
use mallbyte_api.Inventory.Place.{with_stock-quantity, with_stock-release, release-KeepsTotal}
use mallbyte_api.Market.Row.{OrderItem}
use mallbyte_api.Payments.Complete.{sale_of, sell_item, sell_items}

-- The units that the items take from a place.
abbrev pub taken : ℕ → ℕ → OrderItem → ℕ
taken p w i = if (i.product == p) && is_id i.warehouse w then i.quantity else 0

abbrev pub taken_by : ℕ → ℕ → List OrderItem → ℕ
taken_by p w [] = 0
taken_by p w (i ∷ is) = taken p w i + taken_by p w is

module _ (pk user : ℕ) where
  sell_item_inv :
      (i : OrderItem) (l l' : Ledger)
      → sell_item pk user i l ≡ ok l'
      → (w : ℕ) × (t : List Stock) × (i.warehouse ≡ some w)
        × (with_stock i.product w (release_reservation (pos i.quantity) (some user)) l.stocks
            ≡ ok t)
        × (create (sale_of pk user w i) (record l { stocks = t }) ≡ ok l')
  unfolding sell_item
  sell_item_inv i l l' h = elim (Option-cases i.warehouse) [
    | inl missing ↦ ground arith
    | inr (w, e) ↦
        elim (Result-cases
          (with_stock i.product w (release_reservation (pos i.quantity) (some user)) l.stocks)) [
            | inr (x, raised) ↦ ground arith
            | inl (t, done) ↦
                elim (Result-cases (create (sale_of pk user w i) (record l { stocks = t }))) [
                  | inr (x, raised) ↦ ground arith
                  | inl (l'', made) ↦ (w, t, e, done, ground arith)
                ]
          ]
  ]

  sell_item_effect :
      (i : OrderItem) (l l' : Ledger) (p v : ℕ)
      → sell_item pk user i l ≡ ok l'
      → (quantity_at p v l'.stocks + taken p v i ≡ quantity_at p v l.stocks)
        × (reserved_at p v l'.stocks + taken p v i ≡ reserved_at p v l.stocks)
  unfolding sale_of
  sell_item_effect i l l' p v h =
      let (w, t, e, done, made) = sell_item_inv i l l' h in
      let l₀ : Ledger = record l { stocks = t } in
      let m = sale_of pk user w i in
      let same =
        with_stock-quantity i.product w (release_reservation (pos i.quantity) (some user)) l.stocks
          t (release-KeepsTotal (pos i.quantity) (some user)) done in
      let less = with_stock-release i.product w i.quantity (some user) l.stocks t done in
      elim (Bool-cases ((i.product == p) && (w == v))) [
        | inl here ↦ (
          grind (int_laws, same p v, less p v, create_effect m l₀ l' made),
          grind (int_laws, same p v, less p v, create_effect m l₀ l' made),
        )
        | inr away ↦ (
          ground (arith, same p v, less p v, create_elsewhere m l₀ l' p v made),
          ground (arith, same p v, less p v, create_elsewhere m l₀ l' p v made),
        )
      ]

  -- Selling the items of an order takes from each place, of its units and of its reserved units
  -- alike, exactly what the items hold there; so what is available does not change.
  pub sell_items_effect :
      (is : List OrderItem) (l l' : Ledger) (p v : ℕ)
      → sell_items pk user is l ≡ ok l'
      → (quantity_at p v l'.stocks + taken_by p v is ≡ quantity_at p v l.stocks)
        × (reserved_at p v l'.stocks + taken_by p v is ≡ reserved_at p v l.stocks)
  unfolding sell_items
  sell_items_effect [] l l' p v h = ground arith
  sell_items_effect (i ∷ is) l l' p v h = elim (Result-cases (sell_item pk user i l)) [
    | inr (x, raised) ↦ ground arith
    | inl (l₁, done) ↦
        ground (arith, sell_item_effect i l l₁ p v done, sell_items_effect is l₁ l' p v)
  ]

  sell_item-IsRecorded :
      (i : OrderItem) (l l' : Ledger)
      → sell_item pk user i l ≡ ok l'
      → AllSound l.stocks × IsRecorded l
      → AllSound l'.stocks × IsRecorded l'
  sell_item-IsRecorded i l l' h (sound, recorded) =
      let (w, t, e, done, made) = sell_item_inv i l l' h in
      let l₀ : Ledger = record l { stocks = t } in
      let m = sale_of pk user w i in
      let same =
        with_stock-quantity i.product w (release_reservation (pos i.quantity) (some user)) l.stocks
          t (release-KeepsTotal (pos i.quantity) (some user)) done in
      (
        create-AllSound m l₀ l' made (
            with_stock-AllSound i.product w (release_reservation (pos i.quantity) (some user))
              l.stocks (release-IsSound (pos i.quantity) (some user)) sound done),
        create-IsRecorded m l₀ l' made (λ q u. ap pos (same q u) ∙ recorded q u),
      )

  -- It keeps the counters sound, and equal to the sum of the recorded movements.
  pub sell_items-IsRecorded :
      (is : List OrderItem) (l l' : Ledger)
      → sell_items pk user is l ≡ ok l'
      → AllSound l.stocks × IsRecorded l
      → AllSound l'.stocks × IsRecorded l'
  unfolding sell_items
  sell_items-IsRecorded [] l l' h v = let e : l ≡ l' = ground arith in rw (← e) v
  sell_items-IsRecorded (i ∷ is) l l' h v = elim (Result-cases (sell_item pk user i l)) [
    | inr (x, raised) ↦ ground arith
    | inl (l₁, done) ↦
        sell_items-IsRecorded is l₁ l' (ground arith) (sell_item-IsRecorded i l l₁ done v)
  ]
