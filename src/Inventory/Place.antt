-- ===== src/Inventory/Place.antt =====
-- A method on one row of the stock table, seen at every place.
use mallbyte_api.Common.{
  ℕ, ◌+◌, ◌≡◌, ◌∙◌, inl, inr, ◌&&◌, Option, some, List, arith, ◌==◌, if◌then◌else◌, Bool-cases,
  Option-cases, ℤ, pos, Result, ok, Result-cases,
}
use mallbyte_api.Inventory.Failure.{Error}
use mallbyte_api.Inventory.Stock.{
  Stock, reserve, release_reservation, with_stock, find_stock, save_stock,
}
use mallbyte_api.Inventory.Stock.Table.{
  units, find_stock-at, find_stock-save_self, find_stock-save_ne, units-save,
}
use mallbyte_api.Inventory.Movement.Effect.{quantity_at, reserved_at}

-- A method on a row that keeps the total, as reserving and releasing do.
abbrev pub KeepsTotal : (Stock → Result Error Stock) → Type 0
KeepsTotal method =
    (s s' : Stock)
    → method s ≡ ok s'
    → (s'.product ≡ s.product) × (s'.warehouse ≡ s.warehouse) × (s'.quantity ≡ s.quantity)

pub reserve-KeepsTotal : (q : ℤ) (u : Option ℕ) → KeepsTotal (reserve q u)
unfolding reserve
reserve-KeepsTotal q u s s' h = ground arith

pub release-KeepsTotal : (q : ℤ) (u : Option ℕ) → KeepsTotal (release_reservation q u)
unfolding release_reservation
release-KeepsTotal q u s s' h = ground arith

pub with_stock_inv :
    (p w : ℕ) (method : Stock → Result Error Stock) (t t' : List Stock)
    → with_stock p w method t ≡ ok t'
    → (s s' : Stock) × (find_stock p w t ≡ some s) × (method s ≡ ok s') × (t' ≡ save_stock p w s' t)
unfolding with_stock
with_stock_inv p w method t t' h = elim (Option-cases (find_stock p w t)) [
  | inl missing ↦ ground arith
  | inr (s, found) ↦ elim (Result-cases (method s)) [
    | inr (e, raised) ↦ ground arith
    | inl (s', done) ↦ (s, s', found, done, ground arith)
  ]
]

-- Such a method changes no total, at any place.
pub with_stock-quantity :
    (p w : ℕ) (method : Stock → Result Error Stock) (t t' : List Stock)
    → KeepsTotal method
    → with_stock p w method t ≡ ok t'
    → (q v : ℕ) → quantity_at q v t' ≡ quantity_at q v t
with_stock-quantity p w method t t' keep h q v =
    let (s, s', found, done, new) = with_stock_inv p w method t t' h in
    let (same_p, same_w, same_q) = keep s s' done in
    let (at_p, at_w) = find_stock-at p w s t found in
    elim (Bool-cases ((p == q) && (w == v))) [
      | inl here ↦
          rw new
            (ground (arith, find_stock-save_self p w s' s t found (same_p ∙ at_p) (same_w ∙ at_w)))
      | inr away ↦ rw new (
          ground
            (arith, find_stock-save_ne p w q v s' t (ground arith) (same_p ∙ at_p) (same_w ∙ at_w)))
    ]

pub with_stock-units :
    (p w : ℕ) (method : Stock → Result Error Stock) (t t' : List Stock)
    → KeepsTotal method
    → with_stock p w method t ≡ ok t'
    → (q : ℕ) → units q t' ≡ units q t
with_stock-units p w method t t' keep h q =
    let (s, s', found, done, new) = with_stock_inv p w method t t' h in
    let (same_p, same_w, same_q) = keep s s' done in
    let (at_p, at_w) = find_stock-at p w s t found in
    rw new (ground (arith, units-save q p w s' s t found (same_p ∙ at_p)))

-- A reservation adds its quantity to what is reserved at its place, and nowhere else.
pub with_stock-reserve :
    (p w n : ℕ) (u : Option ℕ) (t t' : List Stock)
    → with_stock p w (reserve (pos n) u) t ≡ ok t'
    → (q v : ℕ) → reserved_at q v t' ≡ reserved_at q v t + (if (p == q) && (w == v) then n else 0)
unfolding reserve
with_stock-reserve p w n u t t' h q v =
    let (s, s', found, done, new) = with_stock_inv p w (reserve (pos n) u) t t' h in
    let (at_p, at_w) = find_stock-at p w s t found in
    rw new (ground (arith, find_stock-save_self p w s' s t found, find_stock-save_ne p w q v s' t))

-- A release takes its quantity from what is reserved at its place, and nowhere else.
pub with_stock-release :
    (p w n : ℕ) (u : Option ℕ) (t t' : List Stock)
    → with_stock p w (release_reservation (pos n) u) t ≡ ok t'
    → (q v : ℕ) → reserved_at q v t' + (if (p == q) && (w == v) then n else 0) ≡ reserved_at q v t
unfolding release_reservation
with_stock-release p w n u t t' h q v =
    let (s, s', found, done, new) = with_stock_inv p w (release_reservation (pos n) u) t t' h in
    let (at_p, at_w) = find_stock-at p w s t found in
    rw new (ground (arith, find_stock-save_self p w s' s t found, find_stock-save_ne p w q v s' t))
