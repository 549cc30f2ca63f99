-- ===== src/Settlements/Build/Created.antt =====
-- The rows that the loop over the items of an order creates.
use native.Mathlib.Nat.{mul-le-mul_left}
use Prim.Native.String.{String}
use mallbyte_api.Common.Table.{lookup, AllRows, lookup-AllRows, sum_rows}
use mallbyte_api.Common.{
  ℕ, suc, ◌+◌, ◌-◌, ◌*◌, ◌≤◌, ◌≡◌, refl, ap, inl, inr, false, List, [], ◌∷◌, arith, pos_part,
  neg_part, ℤ, pos, negsuc, ok, Option-cases, Result-cases,
}
use mallbyte_api.Market.Row.{Product, OrderItem}
use mallbyte_api.Settlements.Row.{ItemAllocation}
use mallbyte_api.Settlements.Share.{sum}
use mallbyte_api.Settlements.Share.Count.{length, get}
use mallbyte_api.Settlements.Build.{
  weights, lacks_profile, check_rate, commission_of, new_allocation, create_allocations,
  total_charged,
}

-- The amounts of a row fit together.
abbrev pub IsBalanced : ItemAllocation → Type 0
IsBalanced a =
    (a.discount + a.merchandise_net ≡ a.gross)
    × (a.commission + a.seller_payable ≡ a.merchandise_net)
    × (a.charged ≡ a.merchandise_net + a.shipping + a.tax)

abbrev pub keys : List (ℕ × OrderItem) → List ℕ
keys [] = []
keys ((k, i) ∷ is) = k ∷ keys is

abbrev pub allocated_items : List (ℕ × ItemAllocation) → List ℕ
allocated_items [] = []
allocated_items ((k, a) ∷ rest) = a.order_item ∷ allocated_items rest

check_rate-ok : (stored : ℤ) (rate : ℕ) → check_rate stored ≡ ok rate → rate ≤ 10000
unfolding check_rate
check_rate-ok (negsuc n) rate h = cc
check_rate-ok (pos n) rate h = ground arith

commission-le : (n rate : ℕ) → rate ≤ 10000 → commission_of n rate ≤ n
unfolding commission_of
commission-le n rate le = omega (arith, mul-le-mul_left n le)

new_allocation-IsBalanced :
    (seller : ℕ) (currency : String) (rate : ℕ) (i : ℕ × OrderItem) (w d h t : ℕ)
    → rate ≤ 10000
    → d ≤ w
    → IsBalanced (new_allocation seller currency rate i w d h t)
unfolding new_allocation
new_allocation-IsBalanced seller currency rate (k, i) w d h t le fits =
    (omega arith, omega (arith, commission-le (w - d) rate le), refl)

new_allocation-charged :
    (seller : ℕ) (currency : String) (rate : ℕ) (i : ℕ × OrderItem) (w d h t : ℕ)
    → d ≤ w
    → (new_allocation seller currency rate i w d h t).charged + d ≡ w + h + t
unfolding new_allocation
new_allocation-charged seller currency rate (k, i) w d h t fits = omega arith

module _ (catalog : ℕ → Product) (rates : List (ℕ × ℤ)) (currency : String) where
  -- What a round of the loop gives when it succeeds.
  create_allocations-round :
      (key k : ℕ) (i : OrderItem) (is : List (ℕ × OrderItem)) (d h t : ℕ) (ds hs ts : List ℕ)
      → (created : List (ℕ × ItemAllocation))
      → create_allocations catalog rates currency key ((k, i) ∷ is) (d ∷ ds) (h ∷ hs) (t ∷ ts)
        ≡ ok created
      → (rate : ℕ) × (rest : List (ℕ × ItemAllocation)) × (rate ≤ 10000)
        × (create_allocations catalog rates currency (key + 1) is ds hs ts ≡ ok rest)
        × (created
            ≡ (
              key,
              new_allocation
                  (catalog i.product).seller
                  currency
                  rate
                  (k, i)
                  (100 * i.total_price)
                  d
                  h
                  t,
            )
              ∷ rest)
  unfolding create_allocations
  create_allocations-round key k i is d h t ds hs ts created e =
      elim (Option-cases (lookup (catalog i.product).seller rates)) [
        | inl missing ↦ ground arith
        | inr (stored, found) ↦ elim (Result-cases (check_rate stored)) [
          | inr (failure, bad) ↦ ground arith
          | inl (rate, good) ↦
              elim (Result-cases
                (create_allocations catalog rates currency (key + 1) is ds hs ts)) [
                  | inr (failure, bad) ↦ ground arith
                  | inl (rest, done) ↦
                      (rate, rest, check_rate-ok stored rate good, done, ground arith)
                ]
        ]
      ]

  -- Every row is balanced where no discount is above its item's price.
  pub create_allocations-IsBalanced :
      (key : ℕ) (items : List (ℕ × OrderItem)) (ds hs ts : List ℕ)
      → (created : List (ℕ × ItemAllocation)) → ((j : ℕ) → get ds j ≤ get (weights items) j)
      → create_allocations catalog rates currency key items ds hs ts ≡ ok created
      → AllRows IsBalanced created
  unfolding create_allocations weights
  create_allocations-IsBalanced key [] ds hs ts created fits e = ground arith
  create_allocations-IsBalanced key (i ∷ is) [] hs ts created fits e = cc
  create_allocations-IsBalanced key (i ∷ is) (d ∷ ds) [] ts created fits e = cc
  create_allocations-IsBalanced key (i ∷ is) (d ∷ ds) (h ∷ hs) [] created fits e = cc
  create_allocations-IsBalanced key ((k, i) ∷ is) (d ∷ ds) (h ∷ hs) (t ∷ ts) created fits e =
      let (rate, rest, le, done, same) =
        create_allocations-round key k i is d h t ds hs ts created e in
      rw same (
        new_allocation-IsBalanced (catalog i.product).seller currency rate (k, i)
            (100 * i.total_price) d h t le (fits 0),
        create_allocations-IsBalanced (key + 1) is ds hs ts rest (λ j. fits (suc j)) done,
      )

  -- What the rows charge is the prices less the discounts, with the shipping and the tax.
  pub create_allocations-charged :
      (key : ℕ) (items : List (ℕ × OrderItem)) (ds hs ts : List ℕ)
      → (created : List (ℕ × ItemAllocation)) → ((j : ℕ) → get ds j ≤ get (weights items) j)
      → length ds ≡ length (weights items)
      → length hs ≡ length (weights items)
      → length ts ≡ length (weights items)
      → create_allocations catalog rates currency key items ds hs ts ≡ ok created
      → total_charged created + sum ds ≡ sum (weights items) + sum hs + sum ts
  unfolding create_allocations weights total_charged
  create_allocations-charged key [] (d ∷ ds) hs ts created fits a b c e = absurd (omega arith)
  create_allocations-charged key [] [] (h ∷ hs) ts created fits a b c e = absurd (omega arith)
  create_allocations-charged key [] [] [] (t ∷ ts) created fits a b c e = absurd (omega arith)
  create_allocations-charged key [] [] [] [] created fits a b c e = ground arith
  create_allocations-charged key (i ∷ is) [] hs ts created fits a b c e = cc
  create_allocations-charged key (i ∷ is) (d ∷ ds) [] ts created fits a b c e = cc
  create_allocations-charged key (i ∷ is) (d ∷ ds) (h ∷ hs) [] created fits a b c e = cc
  create_allocations-charged key ((k, i) ∷ is) (d ∷ ds) (h ∷ hs) (t ∷ ts) created fits a b c e =
      let (rate, rest, le, done, same) =
        create_allocations-round key k i is d h t ds hs ts created e in
      rw same (
        omega (
          arith,
          new_allocation-charged (catalog i.product).seller currency rate (k, i)
              (100 * i.total_price) d h t (fits 0),
          create_allocations-charged (key + 1) is ds hs ts rest (λ j. fits (suc j)) (omega arith)
              (omega arith) (omega arith) done,
        ))

  -- The amounts of the rows are those of the lists that they come from.
  pub create_allocations-columns :
      (key : ℕ) (items : List (ℕ × OrderItem)) (ds hs ts : List ℕ)
      → (created : List (ℕ × ItemAllocation)) → length ds ≡ length (weights items)
      → length hs ≡ length (weights items)
      → length ts ≡ length (weights items)
      → create_allocations catalog rates currency key items ds hs ts ≡ ok created
      → (keys items ≡ allocated_items created)
        × (sum_rows (λ a. a.gross) created ≡ sum (weights items))
        × (sum_rows (λ a. a.discount) created ≡ sum ds)
        × (sum_rows (λ a. a.shipping) created ≡ sum hs)
        × (sum_rows (λ a. a.tax) created ≡ sum ts)
  unfolding create_allocations weights new_allocation
  create_allocations-columns key [] (d ∷ ds) hs ts created a b c e = absurd (omega (arith, a))
  create_allocations-columns key [] [] (h ∷ hs) ts created a b c e = absurd (omega (arith, b))
  create_allocations-columns key [] [] [] (t ∷ ts) created a b c e = absurd (omega (arith, c))
  create_allocations-columns key [] [] [] [] created a b c e = ground arith
  create_allocations-columns key (i ∷ is) [] hs ts created a b c e = cc
  create_allocations-columns key (i ∷ is) (d ∷ ds) [] ts created a b c e = cc
  create_allocations-columns key (i ∷ is) (d ∷ ds) (h ∷ hs) [] created a b c e = cc
  create_allocations-columns key ((k, i) ∷ is) (d ∷ ds) (h ∷ hs) (t ∷ ts) created a b c e =
      let (rate, rest, le, done, same) =
        create_allocations-round key k i is d h t ds hs ts created e in
      let (items, gross, discount, shipping, tax) =
        create_allocations-columns (key + 1) is ds hs ts rest (omega (arith, a)) (omega (arith, b))
          (omega (arith, c)) done in
      rw same (
        ap (λ l. k ∷ l) items,
        omega (arith, gross),
        omega (arith, discount),
        omega (arith, shipping),
        omega (arith, tax),
      )

-- A rate between 0 and 100 percent.
abbrev pub IsRate : ℤ → Type 0
IsRate n = (neg_part n ≡ 0) × (pos_part n ≤ 10000)

check_rate-IsRate : (n : ℤ) → IsRate n → check_rate n ≡ ok (pos_part n)
unfolding check_rate
check_rate-IsRate (negsuc n) v = absurd (omega (arith, v.0))
check_rate-IsRate (pos n) v = ground arith

module _ (catalog : ℕ → Product) (rates : List (ℕ × ℤ)) (currency : String) where
  -- The loop succeeds where every seller has a rate that is one.
  pub create_allocations-succeeds :
      (key : ℕ) (items : List (ℕ × OrderItem)) (ds hs ts : List ℕ)
      → length ds ≡ length (weights items)
      → length hs ≡ length (weights items)
      → length ts ≡ length (weights items)
      → AllRows IsRate rates
      → lacks_profile catalog rates items ≡ false
      → (created : List (ℕ × ItemAllocation)) × (create_allocations catalog rates currency key items
            ds hs ts
          ≡ ok created)
  unfolding create_allocations weights lacks_profile
  create_allocations-succeeds key [] ds hs ts a b c v l = ([], refl)
  create_allocations-succeeds key (i ∷ is) [] hs ts a b c v l = absurd (omega (arith, a))
  create_allocations-succeeds key (i ∷ is) (d ∷ ds) [] ts a b c v l = absurd (omega (arith, b))
  create_allocations-succeeds key (i ∷ is) (d ∷ ds) (h ∷ hs) [] a b c v l =
      absurd (omega (arith, c))
  create_allocations-succeeds key ((k, i) ∷ is) (d ∷ ds) (h ∷ hs) (t ∷ ts) a b c v l =
      elim (Option-cases (lookup (catalog i.product).seller rates)) [
        | inl missing ↦ absurd (ground arith)
        | inr (stored, found) ↦
            let (rest, done) =
              create_allocations-succeeds (key + 1) is ds hs ts (omega (arith, a))
                (omega (arith, b)) (omega (arith, c)) v (ground arith) in
            let good =
              check_rate-IsRate stored
                (lookup-AllRows IsRate (catalog i.product).seller stored rates v found) in
            (
              (
                key,
                new_allocation (catalog i.product).seller currency (pos_part stored) (k, i)
                    (100 * i.total_price) d h t,
              )
                  ∷ rest,
              rw (found, good, done) refl,
            )
      ]
