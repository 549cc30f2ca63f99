-- ===== src/Settlements/Share/Quota.antt =====
-- The shares of an allocation sum to the total, and each is its proportion rounded down or up.
use native.Mathlib.Nat.{mul-le-mul_right}
use mathlib.Core.Path.{subst}
use mallbyte_api.Common.Number.{le_of_scaled}
use mallbyte_api.Common.{
  ◌∙◌, sym, ltb, ◌==◌, Bool-cases, ℕ, zero, suc, ◌+◌, ◌*◌, ◌/◌, ◌%◌, ◌≤◌, ◌<◌, ◌≡◌, refl, ◌⊎◌, inl,
  inr, List, [], ◌∷◌, arith, ok, Result,
}
use mallbyte_api.Settlements.Share.{Quotient, sum, zeros, allocate}
use mallbyte_api.Settlements.Share.Exact.{
  extra, shares, length-shares, sum-shares, get-shares, extra-once, extra-le, sum-zeros,
  length-zeros,
}
use mallbyte_api.Settlements.Share.Count.{length, get, top, IsQuotient, divided}

get-past : (k : ℕ) (ns : List ℕ) → length ns ≤ k → get ns k ≡ 0
get-past k [] le = refl
get-past zero (n ∷ ns) le = absurd (omega arith)
get-past (suc k) (n ∷ ns) le = get-past k ns (omega arith)

get-zeros : (k : ℕ) (ws : List ℕ) → get (zeros ws) k ≡ 0
unfolding zeros
get-zeros k [] = refl
get-zeros zero (w ∷ ws) = refl
get-zeros (suc k) (w ∷ ws) = get-zeros k ws

-- Which branch `allocate` takes.
allocate-shares :
    {F : Type 0} (q : Quotient) (e : F) (total : ℕ) (ws : List ℕ)
    → 0 < sum ws
    → allocate q e total ws ≡ ok (shares q total ws)
unfolding allocate
allocate-shares q e total [] p = absurd (omega arith)
allocate-shares q e total (w ∷ ws) p = ground arith

allocate-zeros :
    {F : Type 0} (q : Quotient) (e : F) (total : ℕ) (ws r : List ℕ)
    → sum ws ≡ 0
    → allocate q e total ws ≡ ok r
    → (total ≡ 0) × (r ≡ zeros ws)
unfolding allocate
allocate-zeros q e total ws r z h = ground arith

mul_le : (a b c : ℕ) → a ≤ b → a * c ≤ b * c
mul_le a b c le = mul-le-mul_right c le

-- A share of at most all is at most the weight.
share-le : (u w t c q m : ℕ) → u ≤ t → 0 < t → q * t + m ≡ u * w → c ≤ 1 → c ≤ m → q + c ≤ w
share-le u w t c q m le p e once few = elim (Bool-cases (ltb q w)) [
  | inl less ↦ ground arith
  | inr more ↦ elim (Bool-cases (c == 0)) [
    | inl none_extra ↦ ground (arith, le_of_scaled q w t p (omega (arith, e, mul_le u t w le)))
    | inr extra ↦ absurd (ground (arith, mul_le u t w le, mul_le w q t))
  ]
]

-- What `allocate` promises: a share for each weight, their sum the total, and no share above its
-- weight where the total is not above the sum of the weights.
abbrev pub IsShared : ℕ → List ℕ → List ℕ → Type 0
IsShared total ws r =
    (length r ≡ length ws) × (sum r ≡ total) × ((k : ℕ) → total ≤ sum ws → get r k ≤ get ws k)

rounded : (n q c m : ℕ) → n ≡ q + c → c ≤ 1 → c ≤ m → (n ≡ q) ⊎ ((n ≡ q + 1) × (0 < m))
rounded n q c m e once few = elim (Bool-cases (c == 0)) [
  | inl none_extra ↦ inl (ground arith)
  | inr extra ↦ inr (ground arith)
]

unwrapped : {F : Type 0} {a b : List ℕ} {r : Result F (List ℕ)} → r ≡ ok a → r ≡ ok b → a ≡ b
unwrapped h g = cc

module _ (q : Quotient) (v : IsQuotient q) where
  get-shares-le :
      (total k : ℕ) (ws : List ℕ)
      → 0 < sum ws
      → total < top
      → sum ws < top
      → total ≤ sum ws
      → get (shares q total ws) k ≤ get ws k
  get-shares-le total k ws p small low le = elim (Bool-cases (ltb k (length ws))) [
    | inl inside ↦
        subst (λ n. n ≤ get ws k) (sym (get-shares q v total ws p small low k (ground arith)))
          (share-le total (get ws k) (sum ws) (extra q v total ws p small low k)
            (total * get ws k / sum ws) (total * get ws k % sum ws) le p
            (divided (total * get ws k) (sum ws)) (extra-once q v total ws p small low k)
            (extra-le q v total ws p small low k))
    | inr past ↦
        omega (arith, get-past k (shares q total ws) (ground (arith, length-shares q total ws)))
  ]

  pub allocate-IsShared :
      {F : Type 0} (e : F) (total : ℕ) (ws r : List ℕ)
      → total < top
      → sum ws < top
      → allocate q e total ws ≡ ok r
      → IsShared total ws r
  allocate-IsShared e total ws r small low h = elim (Bool-cases (sum ws == 0)) [
    | inl nothing ↦
        let z = allocate-zeros q e total ws r (ground arith) h in
        rw z.1 (length-zeros ws, sum-zeros ws ∙ sym z.0, λ k le. omega (arith, get-zeros k ws))
    | inr some_weight ↦
        let same = unwrapped (allocate-shares q e total ws (ground arith)) h in
        subst (IsShared total ws) same (
          length-shares q total ws,
          sum-shares q v total ws (ground arith) small low,
          λ k le. get-shares-le total k ws (ground arith) small low le,
        )
  ]

-- Where the quotients of `decimal` round down as the exact ones do, for a total and weights that
-- are amounts of the columns and not all 0, the allocation succeeds with one amount for each
-- weight; the amounts sum to exactly the total, and each is its weight's proportion of the total
-- rounded down, or 1 more than that, which happens only where the rounding cut something off.
pub allocate-proportional :
    {F : Type 0} (q : Quotient) (e : F) (total : ℕ) (ws : List ℕ)
    → IsQuotient q
    → 0 < sum ws
    → total < top
    → sum ws < top
    → (r : List ℕ) × (allocate q e total ws ≡ ok r)
      × (length r ≡ length ws)
      × (sum r ≡ total)
      × ((k : ℕ)
          → k < length ws
          → (get r k ≡ total * get ws k / sum ws)
            ⊎ ((get r k ≡ total * get ws k / sum ws + 1) × (0 < total * get ws k % sum ws)))
allocate-proportional q e total ws v p small low = (
  shares q total ws,
  allocate-shares q e total ws p,
  length-shares q total ws,
  sum-shares q v total ws p small low,
  λ k lt.
      rounded (get (shares q total ws) k) (total * get ws k / sum ws)
        (extra q v total ws p small low k) (total * get ws k % sum ws)
        (get-shares q v total ws p small low k lt) (extra-once q v total ws p small low k)
        (extra-le q v total ws p small low k),
)
