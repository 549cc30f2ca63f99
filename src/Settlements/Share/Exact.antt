-- ===== src/Settlements/Share/Exact.antt =====
-- The sum of the shares, and what the loop over the leftover adds to each.

use mallbyte_api.Common.Number.{le_of_scaled, rest_scaled}
use mallbyte_api.Common.{
  ap, ◌∙◌, ℕ, zero, suc, ◌+◌, ◌-◌, ◌*◌, ◌/◌, ◌%◌, ◌≤◌, ◌<◌, ◌≡◌, refl, List, [], ◌∷◌, arith,
}
use mallbyte_api.Settlements.Share.{
  Quotient, Fraction, sum, zeros, base_shares, fractions, sorted, add_leftover,
}
use mallbyte_api.Settlements.Share.Order.{sum_by, sorted-sum_by, sorted-IsFalling}
use mallbyte_api.Settlements.Share.Count.{
  length, get, take, at_index, too_large, differs, out_of_range, take-le, IsQuotient, top,
  remainder, base_fractions, fractions-small, fractions-same, fractions-in_range, fractions-once,
  fractions-at,
}
use mallbyte_api.Settlements.Share.Loop.{
  length-add_leftover, get-add_leftover, sum-add_leftover, enough, count-le-remainder,
}

pub sum-zeros : (ws : List ℕ) → sum (zeros ws) ≡ 0
unfolding zeros
sum-zeros [] = refl
sum-zeros (w ∷ ws) = omega (arith, sum-zeros ws)

pub length-zeros : (ws : List ℕ) → length (zeros ws) ≡ length ws
unfolding zeros
length-zeros [] = refl
length-zeros (w ∷ ws) = omega (arith, length-zeros ws)

module _ (q : Quotient) where
  length-base_shares : (u t : ℕ) (ws : List ℕ) → length (base_shares q u t ws) ≡ length ws
  unfolding base_shares
  length-base_shares u t [] = refl
  length-base_shares u t (w ∷ ws) = omega (arith, length-base_shares u t ws)

  -- The order of the loop, and how many of it the leftover takes.
  abbrev pub order : ℕ → List ℕ → List Fraction
  order total ws = sorted (fractions q total (sum ws) 0 ws)

  abbrev pub left : ℕ → List ℕ → ℕ
  left total ws = total - sum (base_shares q total (sum ws) ws)

  abbrev pub shares : ℕ → List ℕ → List ℕ
  shares total ws = add_leftover (left total ws) (order total ws) (base_shares q total (sum ws) ws)

  pub length-shares : (total : ℕ) (ws : List ℕ) → length (shares total ws) ≡ length ws
  length-shares total ws = omega (
    arith,
    length-add_leftover (left total ws) (order total ws) (base_shares q total (sum ws) ws),
    length-base_shares total (sum ws) ws,
  )

  order-in_range :
      (total : ℕ) (ws : List ℕ)
      → IsQuotient q
      → 0 < sum ws
      → total < top
      → sum ws < top
      → sum_by (out_of_range (length (base_shares q total (sum ws) ws))) (order total ws) ≡ 0
  order-in_range total ws v p small low = omega (
    arith,
    sorted-sum_by (out_of_range (length (base_shares q total (sum ws) ws)))
        (fractions q total (sum ws) 0 ws),
    fractions-in_range q v total (sum ws) p small low 0 (length (base_shares q total (sum ws) ws))
        ws (omega (arith, length-base_shares total (sum ws) ws)),
  )

module _ (q : Quotient) (v : IsQuotient q) (total : ℕ) (ws : List ℕ) (p : 0 < sum ws)
    (small : total < top) (low : sum ws < top) where
  abbrev rem : Fraction → ℕ
  rem a = remainder total (sum ws) ws a

  rem-reads :
      (j k n : ℕ) → j ≡ 0 + k → rem (record { index = j; part = n }) ≡ total * get ws k % sum ws
  rem-reads j k n e = ap (λ i. total * get ws i % sum ws) (omega (arith, e))

  base-le : sum (base_shares q total (sum ws) ws) ≤ total
  base-le = le_of_scaled (sum (base_shares q total (sum ws) ws)) total (sum ws) p (
      omega (arith, base_fractions q v total (sum ws) p small low rem 0 ws rem-reads (omega arith)))

  left-parts : left q total ws * sum ws ≡ sum_by rem (order q total ws)
  left-parts =
      rest_scaled total (sum (base_shares q total (sum ws) ws)) (sum ws)
        (sum_by rem (order q total ws)) base-le
        (omega (
          arith,
          base_fractions q v total (sum ws) p small low rem 0 ws rem-reads (omega arith),
          sorted-sum_by rem (fractions q total (sum ws) 0 ws),
        ))

  order-small : sum_by (too_large rem (sum ws)) (order q total ws) ≡ 0
  order-small = omega (
    arith,
    sorted-sum_by (too_large rem (sum ws)) (fractions q total (sum ws) 0 ws),
    fractions-small q v total (sum ws) p small low rem 0 ws rem-reads (omega arith),
  )

  order-same : sum_by (differs rem) (order q total ws) ≡ 0
  order-same = omega (
    arith,
    sorted-sum_by (differs rem) (fractions q total (sum ws) 0 ws),
    fractions-same q v total (sum ws) p small low rem 0 ws rem-reads (omega arith),
  )

  pub sum-shares : sum (shares q total ws) ≡ total
  sum-shares =
      sum-add_leftover (left q total ws) (order q total ws) (base_shares q total (sum ws) ws)
        (enough rem (sum ws) (left q total ws) (order q total ws) p order-small
          (omega (arith, left-parts)))
        (order-in_range q total ws v p small low)
      ∙ omega (arith, base-le)

  get-base_shares :
      (k : ℕ) (us : List ℕ)
      → k < length us
      → sum us ≤ sum ws
      → get (base_shares q total (sum ws) us) k ≡ total * get us k / sum ws
  unfolding base_shares
  get-base_shares k [] lt le = absurd (omega arith)
  get-base_shares zero (w ∷ us) lt le = (v total w (sum ws) small (omega arith) p low).0
  get-base_shares (suc k) (w ∷ us) lt le = get-base_shares k us (omega arith) (omega arith)

  -- What an allocation gives at an index: the share rounded down, and 1 more where the loop comes
  -- past it.
  abbrev pub extra : ℕ → ℕ
  extra k = sum_by (at_index (λ a. 1) k) (take (left q total ws) (order q total ws))

  pub get-shares :
      (k : ℕ) → k < length ws → get (shares q total ws) k ≡ total * get ws k / sum ws + extra k
  get-shares k lt = omega (
    arith,
    length-base_shares q total (sum ws) ws,
    get-base_shares k ws lt (omega arith),
    get-add_leftover (left q total ws) k (order q total ws) (base_shares q total (sum ws) ws),
  )

  pub extra-once : (k : ℕ) → extra k ≤ 1
  extra-once k = omega (
    arith,
    take-le (at_index (λ a. 1) k) (left q total ws) (order q total ws),
    sorted-sum_by (at_index (λ a. 1) k) (fractions q total (sum ws) 0 ws),
    fractions-once q v total (sum ws) p small low 0 k ws,
  )

  pub extra-le : (k : ℕ) → extra k ≤ total * get ws k % sum ws
  extra-le k = omega (
    arith,
    count-le-remainder rem (sum ws) (left q total ws) k (order q total ws) p
        (sorted-IsFalling (fractions q total (sum ws) 0 ws)) order-same order-small
        (omega (arith, left-parts)),
    take-le (at_index rem k) (left q total ws) (order q total ws),
    sorted-sum_by (at_index rem k) (fractions q total (sum ws) 0 ws),
    fractions-at q v total (sum ws) p small low rem 0 k k ws rem-reads (omega arith),
  )
