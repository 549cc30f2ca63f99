-- ===== src/Settlements/Share/Count.antt =====
-- What rounding the shares down cuts off.

use native.Mathlib.Nat.{div-add-mod'}
use mallbyte_api.Common.{
  ◌↔◌, ℕ, zero, suc, ◌+◌, ◌*◌, ◌/◌, ◌%◌, ◌≤◌, ◌<◌, ◌≡◌, refl, List, [], ◌∷◌, arith, ltb, ◌==◌,
  if◌then◌else◌,
}
use mallbyte_api.Settlements.Share.{Quotient, Fraction, sum, base_shares, fractions}
use mallbyte_api.Settlements.Share.Order.{sum_by}

abbrev pub length : List ℕ → ℕ
length [] = 0
length (n ∷ ns) = suc (length ns)

-- The amount at an index, 0 past the end.
abbrev pub get : List ℕ → ℕ → ℕ
get [] k = 0
get (n ∷ ns) zero = n
get (n ∷ ns) (suc k) = get ns k

abbrev pub take : ℕ → List Fraction → List Fraction
take zero bs = []
take (suc m) [] = []
take (suc m) (b ∷ bs) = b ∷ take m bs

-- Any number of the fractions with an index.
abbrev pub at_index : (Fraction → ℕ) → ℕ → Fraction → ℕ
at_index f j a = if a.index == j then f a else 0

abbrev pub too_large : (Fraction → ℕ) → ℕ → Fraction → ℕ
too_large f t a = if ltb (f a) t then 0 else 1

-- The fraction that the code sees and the exact one are not both 0 or both positive.
abbrev pub differs : (Fraction → ℕ) → Fraction → ℕ
differs f a = if a.part == 0 then f a else if f a == 0 then 1 else 0

abbrev pub out_of_range : ℕ → Fraction → ℕ
out_of_range n a = if ltb a.index n then 0 else 1

pub take-le : (f : Fraction → ℕ) (m : ℕ) (bs : List Fraction) → sum_by f (take m bs) ≤ sum_by f bs
take-le f zero bs = omega arith
take-le f (suc m) [] = omega arith
take-le f (suc m) (b ∷ bs) = omega (arith, take-le f m bs)

-- Rounding down cuts off what the remainders say.
pub divided : (a t : ℕ) → a / t * t + a % t ≡ a
divided a t = div-add-mod' a t

-- What an amount is below, in hundredths: the columns of orders hold twelve digits of whole units.
abbrev pub top : ℕ
top = 100000000000000

-- What the code relies on of `decimal`, whose quotients are exact where 28 digits hold them and
-- else the nearest with 28 digits: at amounts of the columns, the quotient rounds down as the exact
-- one does, and has a fraction where the exact one has.
abbrev pub IsQuotient : Quotient → Type 0
IsQuotient q =
    (u w t : ℕ)
    → u < top
    → w ≤ t
    → 0 < t
    → t < top
    → ((q u w t).0 ≡ u * w / t) × (((q u w t).1 ≡ 0) ↔ (u * w % t ≡ 0))

-- The remainder of the share that a fraction is of.
abbrev pub remainder : ℕ → ℕ → List ℕ → Fraction → ℕ
remainder u t ws a = u * get ws a.index % t

module _ (q : Quotient) (v : IsQuotient q) (u t : ℕ) (p : 0 < t) (small : u < top)
    (low : t < top) where
  -- `f` gives the remainders of the shares from the index `i` on.
  abbrev IsRead : (Fraction → ℕ) → ℕ → List ℕ → Type 0
  IsRead f i ws = (j k n : ℕ) → j ≡ i + k → f (record { index = j; part = n }) ≡ u * get ws k % t

  IsRead-rest :
      (f : Fraction → ℕ) (i w : ℕ) (ws : List ℕ) → IsRead f i (w ∷ ws) → IsRead f (i + 1) ws
  IsRead-rest f i w ws h j k n e = h j (suc k) n (omega (arith, e))

  pub base_fractions :
      (f : Fraction → ℕ) (i : ℕ) (ws : List ℕ)
      → IsRead f i ws
      → sum ws ≤ t
      → sum (base_shares q u t ws) * t + sum_by f (fractions q u t i ws) ≡ u * sum ws
  unfolding base_shares fractions
  base_fractions f i [] h le = omega arith
  base_fractions f i (w ∷ ws) h le = grind (
    arith,
    base_fractions f (i + 1) ws (IsRead-rest f i w ws h) (omega arith),
    divided (u * w) t,
    (v u w t small (omega arith) p low).0,
    h i 0 (q u w t).1 (omega arith),
  )

  pub fractions-small :
      (f : Fraction → ℕ) (i : ℕ) (ws : List ℕ)
      → IsRead f i ws
      → sum ws ≤ t
      → sum_by (too_large f t) (fractions q u t i ws) ≡ 0
  unfolding fractions
  fractions-small f i [] h le = refl
  fractions-small f i (w ∷ ws) h le = grind (
    arith,
    fractions-small f (i + 1) ws (IsRead-rest f i w ws h) (omega arith),
    h i 0 (q u w t).1 (omega arith),
  )

  pub fractions-same :
      (f : Fraction → ℕ) (i : ℕ) (ws : List ℕ)
      → IsRead f i ws
      → sum ws ≤ t
      → sum_by (differs f) (fractions q u t i ws) ≡ 0
  unfolding fractions
  fractions-same f i [] h le = refl
  fractions-same f i (w ∷ ws) h le = ground (
    arith,
    fractions-same f (i + 1) ws (IsRead-rest f i w ws h) (omega arith),
    h i 0 (q u w t).1 (omega arith),
    (v u w t small (omega arith) p low).1,
  )

  pub fractions-in_range :
      (i n : ℕ) (ws : List ℕ)
      → i + length ws ≤ n
      → sum_by (out_of_range n) (fractions q u t i ws) ≡ 0
  unfolding fractions
  fractions-in_range i n [] le = refl
  fractions-in_range i n (w ∷ ws) le = ground (arith, fractions-in_range (i + 1) n ws)

  fractions-past :
      (f : Fraction → ℕ) (i j : ℕ) (ws : List ℕ)
      → j < i
      → sum_by (at_index f j) (fractions q u t i ws) ≡ 0
  unfolding fractions
  fractions-past f i j [] lt = refl
  fractions-past f i j (w ∷ ws) lt = ground (arith, fractions-past f (i + 1) j ws)

  pub fractions-once :
      (i j : ℕ) (ws : List ℕ) → sum_by (at_index (λ a. 1) j) (fractions q u t i ws) ≤ 1
  unfolding fractions
  fractions-once i j [] = omega arith
  fractions-once i j (w ∷ ws) =
      ground (arith, fractions-once (i + 1) j ws, fractions-past (λ a. 1) (i + 1) j ws)

  pub fractions-at :
      (f : Fraction → ℕ) (i j k : ℕ) (ws : List ℕ)
      → IsRead f i ws
      → j ≡ i + k
      → sum_by (at_index f j) (fractions q u t i ws) ≤ u * get ws k % t
  unfolding fractions
  fractions-at f i j k [] h e = omega arith
  fractions-at f i j zero (w ∷ ws) h e =
      ground (arith, fractions-past f (i + 1) j ws, h i 0 (q u w t).1 (omega arith))
  fractions-at f i j (suc k) (w ∷ ws) h e =
      ground (arith, fractions-at f (i + 1) j k ws (IsRead-rest f i w ws h))
