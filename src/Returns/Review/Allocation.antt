-- ===== src/Returns/Review/Allocation.antt =====
-- How an approved amount is allocated to the items of a request.
use native.Mathlib.Nat.{div-mul-le_self}
use mallbyte_api.Common.Number.{le_of_scaled}
use mallbyte_api.Common.Table.{lookup, IsKeyed}
use mallbyte_api.Common.{
  ℕ, ◌+◌, ◌-◌, ◌*◌, ◌/◌, ◌≤◌, ◌<◌, ◌≡◌, ◌≢◌, refl, ap, ◌∙◌, true, false, inl, inr, Option, none,
  some, List, [], ◌∷◌, arith, ◌==◌, if◌then◌else◌, Option-cases, Bool-cases,
}
use mallbyte_api.Returns.Row.{ReturnItem}
use mallbyte_api.Returns.Review.{requested_total, last_funded_id, item_amount, allocate}

-- The sum of the approved amounts of the items of a request.
abbrev pub approved_total : ℕ → List (ℕ × ReturnItem) → ℕ
approved_total pk [] = 0
approved_total pk ((k, i) ∷ is) =
    (if i.return_request == pk then i.approved_refund_amount else 0) + approved_total pk is

-- Sums of shares that stay within the approved amount in proportion.
share-le :
    (a r t allocated done : ℕ)
    → allocated * t ≤ a * done
    → (allocated + a * r / t) * t ≤ a * (done + r)
share-le a r t allocated done h = grind (arith, div-mul-le_self (a * r) t)

last_funded_id-stored :
    (pk j : ℕ) (is : List (ℕ × ReturnItem)) → last_funded_id pk is ≡ some j → lookup j is ≢ none
unfolding last_funded_id
last_funded_id-stored pk j [] h = cc
last_funded_id-stored pk j ((k, i) ∷ is) h = ground (arith, last_funded_id-stored pk j is)

unfunded :
    (pk approved total : ℕ) (last : Option ℕ) (allocated : ℕ) (is : List (ℕ × ReturnItem))
    → last_funded_id pk is ≡ none
    → (approved_total pk (allocate pk approved total last allocated is) ≡ 0)
      × (requested_total pk is ≡ 0)
unfolding last_funded_id allocate item_amount requested_total
unfunded pk approved total last allocated [] h = (refl, refl)
unfunded pk approved total last allocated ((k, i) ∷ is) h =
    ground (arith, unfunded pk approved total last allocated is)

module _ (pk approved total : ℕ) (last : Option ℕ) where
  -- One round of the loop.
  allocate_mine :
      (allocated k : ℕ) (i : ReturnItem) (is : List (ℕ × ReturnItem))
      → i.return_request == pk ≡ true
      → let amount = item_amount approved total last allocated k i in
        approved_total pk (allocate pk approved total last allocated ((k, i) ∷ is))
        ≡ amount + approved_total pk (allocate pk approved total last (allocated + amount) is)
  unfolding allocate
  allocate_mine allocated k i is mine = rw (mine, mine) refl

  allocate_other :
      (allocated k : ℕ) (i : ReturnItem) (is : List (ℕ × ReturnItem))
      → i.return_request == pk ≡ false
      → approved_total pk (allocate pk approved total last allocated ((k, i) ∷ is))
        ≡ approved_total pk (allocate pk approved total last allocated is)
  unfolding allocate
  allocate_other allocated k i is other =
      let same : allocated + 0 ≡ allocated = omega arith in
      let kept = ap (λ n. approved_total pk (allocate pk approved total last n is)) same in
      rw (other, other) (omega (arith, kept))

  item_amount_zero :
      (allocated k : ℕ) (i : ReturnItem)
      → i.requested_refund_amount ≡ 0
      → item_amount approved total last allocated k i ≡ 0
  unfolding item_amount
  item_amount_zero allocated k i none_requested = ground arith

  item_amount_last :
      (allocated k : ℕ) (i : ReturnItem)
      → 0 < total
      → 0 < i.requested_refund_amount
      → last ≡ some k
      → item_amount approved total last allocated k i ≡ approved - allocated
  unfolding item_amount
  item_amount_last allocated k i p q l = ground arith

  item_amount_share :
      (allocated k j : ℕ) (i : ReturnItem)
      → 0 < total
      → 0 < i.requested_refund_amount
      → last ≡ some j
      → j ≢ k
      → item_amount approved total last allocated k i ≡ approved * i.requested_refund_amount / total
  unfolding item_amount
  item_amount_share allocated k j i p q l ne = ground arith

  scaled_up :
      (allocated done : ℕ)
      → allocated * total ≤ approved * done
      → done ≤ total
      → allocated * total ≤ approved * total
  scaled_up allocated done h le = grind arith

  unlike :
      (j k : ℕ) (is : List (ℕ × ReturnItem))
      → lookup k is ≡ none
      → last_funded_id pk is ≡ some j
      → j ≢ k
  unlike j k is missing found =
      λ same. last_funded_id-stored pk j is found (ap (λ n. lookup n is) same ∙ missing)

  -- A round before the last keeps the shares in proportion.
  scaled_round :
      (allocated done j k : ℕ) (i : ReturnItem)
      → 0 < total
      → last ≡ some j
      → j ≢ k
      → allocated * total ≤ approved * done
      → (allocated + item_amount approved total last allocated k i) * total
        ≤ approved * (done + i.requested_refund_amount)
  scaled_round allocated done j k i p l ne scaled =
      elim (Bool-cases (i.requested_refund_amount == 0)) [
        | inl empty ↦ rw (item_amount_zero allocated k i (ground arith)) (grind arith)
        | inr funded ↦
            rw (item_amount_share allocated k j i p (ground arith) l ne)
              (share-le approved i.requested_refund_amount total allocated done scaled)
      ]

  -- From any item on: what is allocated already and what the rest of the loop allocates are the
  -- approved amount, if an item with an amount is to come and the shares so far are in proportion.
  allocate_rest :
      (allocated done j : ℕ) (is : List (ℕ × ReturnItem))
      → 0 < total
      → IsKeyed is
      → last ≡ some j
      → last_funded_id pk is ≡ some j
      → allocated * total ≤ approved * done
      → done + requested_total pk is ≡ total
      → approved_total pk (allocate pk approved total last allocated is) + allocated ≡ approved
  unfolding last_funded_id requested_total
  allocate_rest allocated done j [] p keyed l h scaled sum = cc
  allocate_rest allocated done j ((k, i) ∷ is) p keyed l h scaled sum =
      elim (Bool-cases (i.return_request == pk)) [
        | inr other ↦
            ap (λ n. n + allocated) (allocate_other allocated k i is other)
            ∙ allocate_rest allocated done j is p keyed.1 l (ground arith) scaled (ground arith)
        | inl mine ↦
            let amount = item_amount approved total last allocated k i in
            let round = allocate_mine allocated k i is mine in
            elim (Option-cases (last_funded_id pk is)) [
              | inl end ↦
                  let none_left = unfunded pk approved total last (allocated + amount) is end in
                  let here : j ≡ k = ground arith in
                  let funded : 0 < i.requested_refund_amount = ground arith in
                  let left = item_amount_last allocated k i p funded (l ∙ ap some here) in
                  let most : done ≤ total = ground arith in
                  let enough : allocated ≤ approved =
                    le_of_scaled allocated approved total p
                      (scaled_up allocated done scaled most) in
                  omega (arith, round, none_left.0, left)
              | inr (m, more) ↦
                  let same : last_funded_id pk is ≡ some j = ground arith in
                  let scaled' =
                    scaled_round allocated done j k i p l (unlike j k is keyed.0 same) scaled in
                  let rest =
                    allocate_rest (allocated + amount) (done + i.requested_refund_amount) j is p
                      keyed.1 l same scaled' (ground arith) in
                  omega (arith, round, rest)
            ]
      ]

unfunded_total :
    (pk approved : ℕ) (last : Option ℕ) (allocated : ℕ) (is : List (ℕ × ReturnItem))
    → approved_total pk (allocate pk approved 0 last allocated is) ≡ 0
unfolding allocate item_amount
unfunded_total pk approved last allocated [] = refl
unfunded_total pk approved last allocated ((k, i) ∷ is) = ground (
  arith,
  unfunded_total pk approved last allocated is,
  unfunded_total pk approved last (allocated + 0) is,
)

-- The items of a request under keys of their own share an approved amount of at most their
-- requested total without loss and without excess.
pub allocate_exact :
    (pk approved : ℕ) (is : List (ℕ × ReturnItem))
    → IsKeyed is
    → approved ≤ requested_total pk is
    → approved_total pk (allocate pk approved (requested_total pk is) (last_funded_id pk is) 0 is)
      ≡ approved
allocate_exact pk approved is keyed le =
    let total = requested_total pk is in
    let last = last_funded_id pk is in
    elim (Option-cases last) [
      | inl end ↦
          let nothing = unfunded pk approved total last 0 is end in
          omega (arith, nothing.0, nothing.1)
      | inr (j, more) ↦ elim (Bool-cases (total == 0)) [
        | inl zero_total ↦
            let none_asked : total ≡ 0 = ground arith in
            rw none_asked (unfunded_total pk approved last 0 is ∙ ground arith)
        | inr positive ↦ omega (
          arith,
          allocate_rest pk approved total last 0 0 j is (ground arith) keyed more more (omega arith)
              (omega arith),
        )
      ]
    ]
