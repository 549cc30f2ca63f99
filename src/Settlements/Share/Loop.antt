-- ===== src/Settlements/Share/Loop.antt =====
-- What the loop over the leftover adds.
use mathlib.Core.Path.{subst}
use mallbyte_api.Common.{
  ℕ, zero, suc, ◌+◌, ◌*◌, ◌≤◌, ◌<◌, ◌≡◌, refl, List, [], ◌∷◌, arith, ◌==◌, if◌then◌else◌,
}
use mallbyte_api.Settlements.Share.{Fraction, sum, add_one, add_leftover}
use mallbyte_api.Settlements.Share.Order.{sum_by, IsBelow, IsFalling}
use mallbyte_api.Settlements.Share.Count.{
  length, get, take, at_index, too_large, differs, out_of_range,
}

-- What the loop adds at an index, and in all.
get-add_one :
    (i k : ℕ) (bs : List ℕ)
    → k < length bs
    → get (add_one i bs) k ≡ get bs k + (if i == k then 1 else 0)
unfolding add_one
get-add_one i k [] lt = absurd (omega arith)
get-add_one zero zero (b ∷ bs) lt = ground arith
get-add_one zero (suc k) (b ∷ bs) lt = ground arith
get-add_one (suc i) zero (b ∷ bs) lt = ground arith
get-add_one (suc i) (suc k) (b ∷ bs) lt = ground (arith, get-add_one i k bs)

length-add_one : (i : ℕ) (bs : List ℕ) → length (add_one i bs) ≡ length bs
unfolding add_one
length-add_one i [] = refl
length-add_one zero (b ∷ bs) = refl
length-add_one (suc i) (b ∷ bs) = omega (arith, length-add_one i bs)

sum-add_one : (i : ℕ) (bs : List ℕ) → i < length bs → sum (add_one i bs) ≡ sum bs + 1
unfolding add_one
sum-add_one i [] lt = absurd (omega arith)
sum-add_one zero (b ∷ bs) lt = omega arith
sum-add_one (suc i) (b ∷ bs) lt = omega (arith, sum-add_one i bs)

pub length-add_leftover :
    (m : ℕ) (order : List Fraction) (bs : List ℕ) → length (add_leftover m order bs) ≡ length bs
unfolding add_leftover
length-add_leftover zero order bs = refl
length-add_leftover (suc m) [] bs = refl
length-add_leftover (suc m) (a ∷ order) bs =
    omega (arith, length-add_leftover m order (add_one a.index bs), length-add_one a.index bs)

pub get-add_leftover :
    (m k : ℕ) (order : List Fraction) (bs : List ℕ)
    → k < length bs
    → get (add_leftover m order bs) k ≡ get bs k + sum_by (at_index (λ a. 1) k) (take m order)
unfolding add_leftover
get-add_leftover zero k order bs lt = omega arith
get-add_leftover (suc m) k [] bs lt = omega arith
get-add_leftover (suc m) k (a ∷ order) bs lt = ground (
  arith,
  get-add_leftover m k order (add_one a.index bs),
  length-add_one a.index bs,
  get-add_one a.index k bs,
)

pub sum-add_leftover :
    (m : ℕ) (order : List Fraction) (bs : List ℕ)
    → m ≤ sum_by (λ a. 1) order
    → sum_by (out_of_range (length bs)) order ≡ 0
    → sum (add_leftover m order bs) ≡ sum bs + m
unfolding add_leftover
sum-add_leftover zero order bs le v = omega arith
sum-add_leftover (suc m) [] bs le v = absurd (omega arith)
sum-add_leftover (suc m) (a ∷ order) bs le v = ground (
  arith,
  sum-add_leftover m order (add_one a.index bs),
  sum-add_one a.index bs,
  length-add_one a.index bs,
)

-- As every remainder is below `t`, `m * t` of them are more than `m`.
pub enough :
    (f : Fraction → ℕ) (t m : ℕ) (bs : List Fraction)
    → 0 < t
    → sum_by (too_large f t) bs ≡ 0
    → m * t ≤ sum_by f bs
    → m ≤ sum_by (λ a. 1) bs
enough f t zero bs p v le = omega arith
enough f t (suc m) [] p v le = absurd (grind arith)
enough f t (suc m) (b ∷ bs) p v le = ground (arith, enough f t m bs p)

-- Nothing follows the first fraction that is 0.
IsBelow-zero :
    (f : Fraction → ℕ) (bs : List Fraction)
    → IsBelow 0 bs
    → sum_by (differs f) bs ≡ 0
    → sum_by f bs ≡ 0
IsBelow-zero f [] v d = refl
IsBelow-zero f (b ∷ bs) v d = ground (arith, v.0, IsBelow-zero f bs v.1)

rest-zero :
    (f : Fraction → ℕ) (b : Fraction) (bs : List Fraction)
    → IsBelow b.part bs
    → sum_by (differs f) bs ≡ 0
    → b.part ≡ 0
    → sum_by f bs ≡ 0
rest-zero f b bs v d e = IsBelow-zero f bs (subst (λ n. IsBelow n bs) e v) d

-- So the fractions that the leftover goes to are not 0, and where none is, the remainders bound
-- their number.
pub count-le-remainder :
    (f : Fraction → ℕ) (t m k : ℕ) (bs : List Fraction)
    → 0 < t
    → IsFalling bs
    → sum_by (differs f) bs ≡ 0
    → sum_by (too_large f t) bs ≡ 0
    → m * t ≤ sum_by f bs
    → sum_by (at_index (λ a. 1) k) (take m bs) ≤ sum_by (at_index f k) (take m bs)
count-le-remainder f t zero k bs p fall d v le = omega arith
count-le-remainder f t (suc m) k [] p fall d v le = omega arith
count-le-remainder f t (suc m) k (b ∷ bs) p fall d v le =
    ground (arith, count-le-remainder f t m k bs p fall.1, rest-zero f b bs fall.0)
