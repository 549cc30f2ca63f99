-- ===== src/Settlements/Share.antt =====
-- `money` and `allocate` of apps/settlements/services.py. Amounts are in hundredths, so `money` of
-- an amount that a column holds is the amount. The quotients are those of Python's `decimal`.
pub mod Order
pub mod Count
pub mod Loop
pub mod Exact
pub mod Quota
use mallbyte_api.Common.{
  ℕ, zero, suc, ◌+◌, ◌-◌, ◌*◌, ◌/◌, ◌%◌, Bool, true, false, not, ◌&&◌, ◌||◌, List, [], ◌∷◌, ltb,
  ◌==◌, if◌then◌else◌, Result, ok, err,
}

abbrev pub sum : List ℕ → ℕ
sum [] = 0
sum (n ∷ ns) = n + sum ns

abbrev pub is_nil : List ℕ → Bool
is_nil [] = true
is_nil (n ∷ ns) = false

-- `[ZERO] * len(weights)`
unfoldable pub zeros : List ℕ → List ℕ
zeros [] = []
zeros (w ∷ ws) = 0 ∷ zeros ws

-- `Decimal(units) * w / total_weight` of the units, a weight and the total weight: its whole part,
-- and its fraction in a unit as small as the context of `decimal` has.
abbrev pub Quotient : Type 0
Quotient = ℕ → ℕ → ℕ → ℕ × ℕ

-- The shares rounded down.
unfoldable pub base_shares : Quotient → ℕ → ℕ → List ℕ → List ℕ
base_shares quotient units total_weight [] = []
base_shares quotient units total_weight (w ∷ ws) =
    (quotient units w total_weight).0 ∷ base_shares quotient units total_weight ws

-- What the rounding cuts off of a share, under the index of the share.
pub record Fraction : Type 0 where
  pub index : ℕ
  pub part : ℕ

unfoldable pub fractions : Quotient → ℕ → ℕ → ℕ → List ℕ → List Fraction
fractions quotient units total_weight i [] = []
fractions quotient units total_weight i (w ∷ ws) =
    record { index = i; part = (quotient units w total_weight).1 }
    ∷ fractions quotient units total_weight (i + 1) ws

-- The key `(-fraction, index)` of `a` is below that of `b`.
abbrev pub is_before : Fraction → Fraction → Bool
is_before a b = ltb b.part a.part || ((b.part == a.part) && ltb a.index b.index)

-- Python's `sorted` by that key.
unfoldable pub insert_sorted : Fraction → List Fraction → List Fraction
insert_sorted a [] = a ∷ []
insert_sorted a (b ∷ bs) =
    let rest = insert_sorted a bs in if is_before b a then b ∷ rest else a ∷ b ∷ bs

unfoldable pub sorted : List Fraction → List Fraction
unfolding insert_sorted
sorted [] = []
sorted (a ∷ rest) = insert_sorted a (sorted rest)

-- `base[i] += 1`
unfoldable pub add_one : ℕ → List ℕ → List ℕ
add_one i [] = []
add_one zero (b ∷ bs) = (b + 1) ∷ bs
add_one (suc i) (b ∷ bs) = b ∷ add_one i bs

-- The loop over `order[:leftover]`.
unfoldable pub add_leftover : ℕ → List Fraction → List ℕ → List ℕ
unfolding add_one
add_leftover zero order base = base
add_leftover (suc leftover) [] base = base
add_leftover (suc leftover) (a ∷ order) base = add_leftover leftover order (add_one a.index base)

-- Weights and total are not negative here.
unfoldable pub allocate : {F : Type 0} → Quotient → F → ℕ → List ℕ → Result F (List ℕ)
unfolding zeros base_shares fractions sorted add_leftover
allocate quotient cannot_allocate total weights =
    let total_weight = sum weights in
    let base = base_shares quotient total total_weight weights in
    let leftover = total - sum base in
    if is_nil weights || (total_weight == 0)
    then if (total == 0) && not (is_nil weights) then ok (zeros weights) else err cannot_allocate
    else ok (add_leftover leftover (sorted (fractions quotient total total_weight 0 weights)) base)
