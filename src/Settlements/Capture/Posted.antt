-- ===== src/Settlements/Capture/Posted.antt =====
-- What the posting of a captured payment does to the ledger, once and again.
use Prim.Native.String.{String}
use text.Mathlib.Text.{◌==◌ as str_eq}
use mallbyte_api.Common.Table.{lookup, IsKeyed}
use mallbyte_api.Common.{
  ℕ, ◌+◌, ◌≡◌, refl, ap, ◌∙◌, inl, inr, true, not, ◌&&◌, ◌||◌, none, some, List, [], ◌∷◌, ◌==◌,
  if◌then◌else◌, ℤ, pos, ◌+ℤ◌, Result, ok, arith, int_laws, Option-cases,
}
use mallbyte_api.Market.Row.{Payment, OrderItem}
use mallbyte_api.Market.State.{Market}
use mallbyte_api.Settlements.Failure.{Error}
use mallbyte_api.Settlements.Row.{ItemAllocation, SourceKey, capture_key, SellerLedgerEntry, Books}
use mallbyte_api.Settlements.Build.{order_allocations}
use mallbyte_api.Settlements.Capture.{
  has_source, sale_entry, post_sale, post_sales, post_captured_payment, balance_of, seller_balance,
}

-- No allocation is left to post.
abbrev IsPosted : ℕ → List (ℕ × ItemAllocation) → List SellerLedgerEntry → Type 0
IsPosted payment [] es = Unit
IsPosted payment ((k, a) ∷ rest) es =
    (((a.seller_payable == 0) || has_source (capture_key payment k) es) ≡ true)
    × IsPosted payment rest es

post_sale-posts :
    (payment at k : ℕ) (a : ItemAllocation) (es : List SellerLedgerEntry)
    → ((a.seller_payable == 0)
        || has_source (capture_key payment k) (post_sale payment at (k, a) es))
      ≡ true
unfolding post_sale has_source sale_entry
post_sale-posts payment at k a es = ground arith

post_sale-keeps :
    (payment at : ℕ) (a : ℕ × ItemAllocation) (key : SourceKey) (es : List SellerLedgerEntry)
    → has_source key es ≡ true
    → has_source key (post_sale payment at a es) ≡ true
unfolding post_sale has_source sale_entry
post_sale-keeps payment at (k, a) key es h = ground arith

post_sales-keeps :
    (payment at : ℕ) (rest : List (ℕ × ItemAllocation)) (key : SourceKey)
    (es : List SellerLedgerEntry)
    → has_source key es ≡ true
    → has_source key (post_sales payment at rest es) ≡ true
unfolding post_sales
post_sales-keeps payment at [] key es h = h
post_sales-keeps payment at (a ∷ rest) key es h =
    post_sales-keeps payment at rest key (post_sale payment at a es)
      (post_sale-keeps payment at a key es h)

post_sales-IsPosted :
    (payment at : ℕ) (rest : List (ℕ × ItemAllocation)) (es : List SellerLedgerEntry)
    → IsPosted payment rest (post_sales payment at rest es)
unfolding post_sales
post_sales-IsPosted payment at [] es = tt
post_sales-IsPosted payment at ((k, a) ∷ rest) es = (
  ground (
    arith,
    post_sale-posts payment at k a es,
    post_sales-keeps payment at rest (capture_key payment k) (post_sale payment at (k, a) es),
  ),
  post_sales-IsPosted payment at rest (post_sale payment at (k, a) es),
)

IsPosted-post_sales :
    (payment at : ℕ) (rest : List (ℕ × ItemAllocation)) (es : List SellerLedgerEntry)
    → IsPosted payment rest es
    → post_sales payment at rest es ≡ es
unfolding post_sales post_sale
IsPosted-post_sales payment at [] es v = refl
IsPosted-post_sales payment at ((k, a) ∷ rest) es v =
    rw v.0 (IsPosted-post_sales payment at rest es v.1)

-- What is still to post to a seller in a currency.
abbrev pub due : ℕ → ℕ → String → List (ℕ × ItemAllocation) → List SellerLedgerEntry → ℕ
due payment seller currency [] es = 0
due payment seller currency ((k, a) ∷ rest) es =
    (if (a.seller == seller)
        && str_eq a.currency currency
        && not (has_source (capture_key payment k) es)
      then a.seller_payable
      else 0)
    + due payment seller currency rest es

due-post_sale :
    (payment at seller k : ℕ) (currency : String) (a : ItemAllocation)
    (rest : List (ℕ × ItemAllocation)) (es : List SellerLedgerEntry)
    → lookup k rest ≡ none
    → due payment seller currency rest (post_sale payment at (k, a) es)
      ≡ due payment seller currency rest es
unfolding post_sale has_source sale_entry
due-post_sale payment at seller k currency a [] es h = refl
due-post_sale payment at seller k currency a ((j, c) ∷ rest) es h =
    ground (arith, due-post_sale payment at seller k currency a rest es)

+ℤ_zero : (x : ℤ) → x +ℤ pos 0 ≡ x
+ℤ_zero x = grind int_laws

+ℤ_comm : (x y : ℤ) → x +ℤ y ≡ y +ℤ x
+ℤ_comm x y = grind int_laws

balance-post_sale :
    (payment at seller k : ℕ) (currency : String) (a : ItemAllocation) (es : List SellerLedgerEntry)
    → balance_of seller currency (post_sale payment at (k, a) es)
      ≡ balance_of seller currency es +ℤ pos (due payment seller currency ((k, a) ∷ []) es)
unfolding post_sale has_source sale_entry balance_of
balance-post_sale payment at seller k currency a es = ground (
  arith,
  +ℤ_zero (balance_of seller currency es),
  +ℤ_comm (pos a.seller_payable) (balance_of seller currency es),
)

balance-post_sales :
    (payment at seller : ℕ) (currency : String) (rest : List (ℕ × ItemAllocation))
    (es : List SellerLedgerEntry)
    → IsKeyed rest
    → balance_of seller currency (post_sales payment at rest es)
      ≡ balance_of seller currency es +ℤ pos (due payment seller currency rest es)
unfolding post_sales
balance-post_sales payment at seller currency [] es v = grind int_laws
balance-post_sales payment at seller currency ((k, a) ∷ rest) es v = grind (
  int_laws,
  balance-post_sale payment at seller k currency a es,
  balance-post_sales payment at seller currency rest (post_sale payment at (k, a) es) v.1,
  due-post_sale payment at seller k currency a rest es v.0,
)

lookup-order_allocations :
    (pk k : ℕ) (items : List (ℕ × OrderItem)) (rows : List (ℕ × ItemAllocation))
    → lookup k rows ≡ none
    → lookup k (order_allocations pk items rows) ≡ none
unfolding order_allocations
lookup-order_allocations pk k items [] h = refl
lookup-order_allocations pk k items ((j, a) ∷ rows) h =
    ground (arith, lookup-order_allocations pk k items rows)

order_allocations-IsKeyed :
    (pk : ℕ) (items : List (ℕ × OrderItem)) (rows : List (ℕ × ItemAllocation))
    → IsKeyed rows
    → IsKeyed (order_allocations pk items rows)
unfolding order_allocations
order_allocations-IsKeyed pk items [] v = tt
order_allocations-IsKeyed pk items ((j, a) ∷ rows) v = ground (
  arith,
  order_allocations-IsKeyed pk items rows v.1,
  lookup-order_allocations pk j items rows v.0,
)

module _ (upper : String → String) (pk : ℕ) (db : Market) (b b' : Books) where
  -- The payment and the time of a posting, and what it does to any ledger.
  record Captured : Type 0 where
    payment : Payment
    at : ℕ
    found : lookup pk db.payments ≡ some payment
    posted :
        (es : List SellerLedgerEntry)
        → post_captured_payment upper pk db (record b { entries = es })
          ≡ ok (record b {
            entries = post_sales pk at (order_allocations payment.order db.items b.allocations) es;
          })

  captured : post_captured_payment upper pk db b ≡ ok b' → Captured
  unfolding post_captured_payment
  captured h = elim (Option-cases (lookup pk db.payments)) [
    | inl missing ↦ ground arith
    | inr (p, found) ↦ elim (Option-cases (lookup p.order db.orders)) [
      | inl missing ↦ ground arith
      | inr (o, ordered) ↦ elim (Option-cases p.paid_at) [
        | inl missing ↦ ground arith
        | inr (at, time) ↦ record {
          payment = p;
          at = at;
          found = found;
          posted = λ es. ground arith;
        }
      ]
    ]
  ]

-- Two results of one posting are the same.
again :
    (run : Books → Result Error Books) (b b' b₁ b₂ : Books)
    → b₂ ≡ b₁
    → run b ≡ ok b₁
    → run b₁ ≡ ok b₂
    → run b ≡ ok b'
    → run b' ≡ ok b'
again run b b' b₁ b₂ same first second h = cc

posted_entries :
    (r : Result Error Books) (b₁ b₂ : Books) → r ≡ ok b₁ → r ≡ ok b₂ → b₂.entries ≡ b₁.entries
posted_entries r b₁ b₂ first second = cc

-- Posting a captured payment is safe to replay: after it has been posted, posting it again
-- succeeds and changes nothing.
pub post_captured_payment-once :
    (upper : String → String) (pk : ℕ) (db : Market) (b b' : Books)
    → post_captured_payment upper pk db b ≡ ok b'
    → post_captured_payment upper pk db b' ≡ ok b'
post_captured_payment-once upper pk db b b' h =
    let c = captured upper pk db b b' h in
    let sold = order_allocations c.payment.order db.items b.allocations in
    let same =
      IsPosted-post_sales pk c.at sold (post_sales pk c.at sold b.entries)
        (post_sales-IsPosted pk c.at sold b.entries) in
    let once : Books = record b { entries = post_sales pk c.at sold b.entries } in
    again (post_captured_payment upper pk db) b b' once
      (record b { entries = post_sales pk c.at sold once.entries })
      (ap (λ es. record b { entries = es }) same) (c.posted b.entries) (c.posted once.entries) h

-- Where the allocations have different keys, a posting adds to the balance of each seller in each
-- currency exactly the seller's parts of the order's allocations in that currency that were not
-- posted for this payment before.
pub post_captured_payment-balance :
    (upper : String → String) (pk seller : ℕ) (currency : String) (db : Market) (b b' : Books)
    → post_captured_payment upper pk db b ≡ ok b'
    → IsKeyed b.allocations
    → (p : Payment) × (lookup pk db.payments ≡ some p)
      × (seller_balance upper seller currency b'
          ≡ seller_balance upper seller currency b
            +ℤ pos (
                due pk seller
                  (upper currency)
                  (order_allocations p.order db.items b.allocations)
                  b.entries))
unfolding seller_balance
post_captured_payment-balance upper pk seller currency db b b' h v =
    let c = captured upper pk db b b' h in
    let sold = order_allocations c.payment.order db.items b.allocations in
    (
      c.payment,
      c.found,
      ap (balance_of seller (upper currency)) (
            posted_entries (post_captured_payment upper pk db b)
              (record b { entries = post_sales pk c.at sold b.entries }) b' (c.posted b.entries) h)
          ∙ balance-post_sales pk c.at seller (upper currency) sold b.entries
              (order_allocations-IsKeyed c.payment.order db.items b.allocations v),
    )
