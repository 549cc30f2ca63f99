-- ===== src/Inventory/Stock/Reservation.antt =====
-- Reserving and releasing units of one row.
use mallbyte_api.Common.{ℕ, ◌+◌, refl, negsuc, ◌≤◌, ◌<◌, ◌≡◌, ◌↔◌, Option, arith, ℤ, pos, ok}
use mallbyte_api.Inventory.Stock.{Stock, IsSound, reserve, release_reservation}

-- A reservation that succeeds keeps `reserved_quantity <= quantity` and the total.
pub reserve-IsSound :
    (q : ℤ) (u : Option ℕ) (s s' : Stock) → reserve q u s ≡ ok s' → IsSound s → IsSound s'
unfolding reserve
reserve-IsSound q u s s' h v = ground arith

pub release-IsSound :
    (q : ℤ) (u : Option ℕ) (s s' : Stock)
    → release_reservation q u s ≡ ok s'
    → IsSound s
    → IsSound s'
unfolding release_reservation
release-IsSound q u s s' h v = ground arith

-- On a row that meets its constraint, a reservation of any integer quantity succeeds exactly when
-- the quantity is positive and no more than what is available.
pub reserve_succeeds_iff :
    (q : ℤ) (u : Option ℕ) (s : Stock)
    → IsSound s
    → ((s' : Stock) × (reserve q u s ≡ ok s'))
      ↔ ((n : ℕ) × (q ≡ pos n) × (0 < n) × (s.reserved_quantity + n ≤ s.quantity))
unfolding reserve
reserve_succeeds_iff (pos n) u s v = (
  λ (s', e). (n, refl, ground arith, ground arith),
  λ (m, same, a, b).
      (record s { reserved_quantity = s.reserved_quantity + n; updated_by = u }, ground arith),
)
reserve_succeeds_iff (negsuc n) u s v = (λ (s', e). absurd (ground arith), λ (m, same, a, b). cc)

-- A release of what was just reserved gives the row back as it was, with the releasing user
-- noted.
pub release-reserve :
    (q : ℤ) (u v : Option ℕ) (s s' : Stock)
    → reserve q u s ≡ ok s'
    → release_reservation q v s' ≡ ok (record s { updated_by = v })
unfolding reserve release_reservation
release-reserve q u v s s' h = ground arith
