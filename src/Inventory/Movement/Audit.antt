-- ===== src/Inventory/Movement/Audit.antt =====
-- The movements are the whole history of the counters.
use mallbyte_api.Common.{
  ℕ, ◌≡◌, ◌∙◌, inl, inr, ◌&&◌, List, [], ◌∷◌, arith, ◌==◌, if◌then◌else◌, Bool-cases, ℤ, pos, ◌+ℤ◌,
  int_laws, ok,
}
use mallbyte_api.Inventory.Stock.{Stock}
use mallbyte_api.Inventory.Stock.Table.{units, units-save}
use mallbyte_api.Inventory.Movement.{StockMovement, Ledger, create, get_or_create}
use mallbyte_api.Inventory.Movement.Effect.{
  quantity_at, create_effect, create_elsewhere, create_inv, get_or_create-at, moved_stock_lem,
}

-- The sum of the signed quantities of the movements at a place.
abbrev pub moved_at : ℕ → ℕ → List (ℕ × StockMovement) → ℤ
moved_at p w [] = pos 0
moved_at p w ((k, m) ∷ t) =
    if (m.product == p) && (m.warehouse == w) then m.quantity +ℤ moved_at p w t else moved_at p w t

-- At each place the counter is the sum of what the movements record.
abbrev pub IsRecorded : Ledger → Type 0
IsRecorded l = (p w : ℕ) → pos (quantity_at p w l.stocks) ≡ moved_at p w l.movements

-- `StockMovement.objects.create` keeps the counters equal to the sum of the recorded movements.
pub create-IsRecorded :
    (m : StockMovement) (l l' : Ledger) → create m l ≡ ok l' → IsRecorded l → IsRecorded l'
create-IsRecorded m l l' h rec p w =
    let (signed, moved, kept, log) = create_effect m l l' h in
    elim (Bool-cases ((m.product == p) && (m.warehouse == w))) [
      | inl here ↦ rw log (grind (int_laws, rec p w, moved))
      | inr away ↦ rw log (ground (arith, rec p w, create_elsewhere m l l' p w h))
    ]

get_or_create-units :
    (m : StockMovement) (t : List Stock) (p : ℕ) → units p (get_or_create m t).1 ≡ units p t
unfolding get_or_create
get_or_create-units m t p = ground arith

-- The units of each product over all warehouses move by the quantity of the movement.
pub create-units :
    (m : StockMovement) (l l' : Ledger) (p : ℕ)
    → create m l ≡ ok l'
    → pos (units p l'.stocks)
      ≡ pos (units p l.stocks) +ℤ (if p == m.product then m.quantity else pos 0)
create-units m l l' p h =
    let (s', passed, moved, stocks, log) = create_inv m l l' h in
    let (s, t) = get_or_create m l.stocks in
    let at = get_or_create-at m l.stocks in
    let eff = moved_stock_lem m s s' moved in
    rw stocks (
      grind (
        int_laws,
        get_or_create-units m l.stocks p,
        units-save p m.product m.warehouse s' s t at.4 (eff.3 ∙ at.0),
      ))
