-- ===== src/Inventory/Stock/Table.antt =====
-- The table of stock rows: lookups after a save, and sums over the rows of a product.
use mallbyte_api.Common.{
  ℕ, ◌+◌, ◌≡◌, refl, ◌≢◌, ◌⊎◌, inl, inr, some, List, [], ◌∷◌, arith, ◌==◌, if◌then◌else◌, Result,
  ok, Option-cases, Result-cases,
}
use mallbyte_api.Inventory.Failure.{Error}
use mallbyte_api.Inventory.Stock.{Stock, IsSound, find_stock, save_stock, with_stock}

pub find_stock-at :
    (p w : ℕ) (s : Stock) (t : List Stock)
    → find_stock p w t ≡ some s
    → (s.product ≡ p) × (s.warehouse ≡ w)
find_stock-at p w s [] h = cc
find_stock-at p w s (r ∷ t) h = ground (arith, find_stock-at p w s t)

pub find_stock-save_self :
    (p w : ℕ) (new old : Stock) (t : List Stock)
    → find_stock p w t ≡ some old
    → new.product ≡ p
    → new.warehouse ≡ w
    → find_stock p w (save_stock p w new t) ≡ some new
find_stock-save_self p w new old [] h a b = cc
find_stock-save_self p w new old (r ∷ t) h a b = ground (arith, find_stock-save_self p w new old t)

pub find_stock-save_ne :
    (p w q v : ℕ) (new : Stock) (t : List Stock)
    → (p ≢ q) ⊎ (w ≢ v)
    → new.product ≡ p
    → new.warehouse ≡ w
    → find_stock q v (save_stock p w new t) ≡ find_stock q v t
find_stock-save_ne p w q v new [] h a b = refl
find_stock-save_ne p w q v new (r ∷ t) h a b =
    ground (arith, find_stock-save_ne p w q v new t h a b)

abbrev pub AllSound : List Stock → Type 0
AllSound [] = Unit
AllSound (s ∷ t) = IsSound s × AllSound t

pub find_stock-IsSound :
    (p w : ℕ) (s : Stock) (t : List Stock) → AllSound t → find_stock p w t ≡ some s → IsSound s
find_stock-IsSound p w s [] v h = cc
find_stock-IsSound p w s (r ∷ t) v h = ground (arith, find_stock-IsSound p w s t v.1)

pub save_stock-AllSound :
    (p w : ℕ) (new : Stock) (t : List Stock)
    → AllSound t
    → IsSound new
    → AllSound (save_stock p w new t)
save_stock-AllSound p w new [] v h = tt
save_stock-AllSound p w new (r ∷ t) v h = ground (arith, save_stock-AllSound p w new t v.1 h)

-- The units of a product over all warehouses.
abbrev pub units : ℕ → List Stock → ℕ
units p [] = 0
units p (s ∷ t) = (if p == s.product then s.quantity else 0) + units p t

pub units-save :
    (p q w : ℕ) (new old : Stock) (t : List Stock)
    → find_stock q w t ≡ some old
    → new.product ≡ q
    → units p (save_stock q w new t) + (if p == q then old.quantity else 0)
      ≡ units p t + (if p == q then new.quantity else 0)
units-save p q w new old [] h a = cc
units-save p q w new old (r ∷ t) h a = ground (arith, units-save p q w new old t)

-- A method that keeps the constraint of its row keeps the constraints of the table.
pub with_stock-AllSound :
    (p w : ℕ) (method : Stock → Result Error Stock) (t : List Stock) {t' : List Stock}
    → ((s s' : Stock) → method s ≡ ok s' → IsSound s → IsSound s')
    → AllSound t
    → with_stock p w method t ≡ ok t'
    → AllSound t'
unfolding with_stock
with_stock-AllSound p w method t keep v h = elim (Option-cases (find_stock p w t)) [
  | inl missing ↦ ground arith
  | inr (s, found) ↦ elim (Result-cases (method s)) [
    | inl (s', done) ↦
        ground (
          arith,
          keep s s' done,
          find_stock-IsSound p w s t v found,
          save_stock-AllSound p w s' t v,
        )
    | inr (e, raised) ↦ ground arith
  ]
]
