-- ===== src/Settlements/Refund/Effect.antt =====
-- What a call of `post_verified_refund` that ends well has checked and stored.
use Prim.Native.String.{String}
use mallbyte_api.Common.Table.{lookup}
use mallbyte_api.Common.{
  ℕ, ◌≡◌, ap, sym, ◌∙◌, inl, inr, ◌⊎◌, true, none, some, List, ok, arith, Option-cases,
  Result-cases,
}
use mallbyte_api.Market.Row.{Order, Payment}
use mallbyte_api.Market.State.{Market}
use mallbyte_api.Returns.Row.{ReturnRequest, Returns}
use mallbyte_api.Settlements.Row.{ConfirmedRefund, Books}
use mallbyte_api.Settlements.Payout.{check_evidence, positive}
use mallbyte_api.Settlements.Refund.Line.{Refunded, refund_lines}
use mallbyte_api.Settlements.Refund.Replay.{RefundData, refund_matches}
use mallbyte_api.Settlements.Refund.Check.{check_refund, check_lines}
use mallbyte_api.Settlements.Refund.Post.{
  find_refund, with_refund, settle_payment, post_verified_refund,
}

module _ (upper : String → String) (d : RefundData) (db : Market) (r : Returns) (b : Books) where
  -- The refund was recorded before.
  pub record Known (k : ℕ) (db' : Market) (b' : Books) : Type 0 where
    pub at : ℕ
    pub evidence : check_evidence d.gateway_reference d.idempotency_key d.confirmed_at ≡ ok at
    pub amount : ℕ
    pub sign : positive d.amount ≡ ok amount
    pub row : ConfirmedRefund
    pub found : find_refund d.idempotency_key b.refunds ≡ some (k, row)
    pub matches : refund_matches upper d amount b.allocations b.refund_allocations (k, row) ≡ true
    pub same_db : db' ≡ db
    pub same : b' ≡ b

  pub record Recorded (k : ℕ) (db' : Market) (b' : Books) : Type 0 where
    pub at : ℕ
    pub evidence : check_evidence d.gateway_reference d.idempotency_key d.confirmed_at ≡ ok at
    pub amount : ℕ
    pub sign : positive d.amount ≡ ok amount
    pub fresh : find_refund d.idempotency_key b.refunds ≡ none
    pub payment : Payment
    pub paid : lookup d.payment db.payments ≡ some payment
    pub request : ReturnRequest
    pub asked : lookup d.return_request r.requests ≡ some request
    pub checked : check_refund upper d amount payment request b.refunds ≡ ok tt
    pub lines_checked : check_lines d payment request db r b ≡ ok tt
    pub done : List Refunded
    pub lines_done :
        refund_lines payment.order d.return_request db.items b.allocations r.items b.refunds
          b.refund_allocations d.lines
        ≡ ok done
    pub key : k ≡ b.next_key
    pub stored : b' ≡ with_refund upper d amount at done b
    pub settled : db' ≡ settle_payment d at payment b'.refunds db

  made :
      (k : ℕ) (db' : Market) (b' : Books) (at amount : ℕ) (p : Payment) (o : Order)
      (request : ReturnRequest)
      → check_evidence d.gateway_reference d.idempotency_key d.confirmed_at ≡ ok at
      → positive d.amount ≡ ok amount
      → find_refund d.idempotency_key b.refunds ≡ none
      → lookup d.payment db.payments ≡ some p
      → lookup p.order db.orders ≡ some o
      → lookup d.return_request r.requests ≡ some request
      → post_verified_refund upper d db r b ≡ ok (k, db', b')
      → Recorded k db' b'
  unfolding post_verified_refund
  made k db' b' at amount p o request evidence sign fresh paid ordered asked h =
      elim (Result-cases (check_refund upper d amount p request b.refunds)) [
        | inr (failure, bad) ↦ ground arith
        | inl (checked, checked_ok) ↦ elim (Result-cases (check_lines d p request db r b)) [
          | inr (failure, bad) ↦ ground arith
          | inl (lines, lines_ok) ↦
              elim (Result-cases (
                refund_lines p.order d.return_request db.items b.allocations r.items b.refunds
                  b.refund_allocations d.lines)) [
                    | inr (failure, bad) ↦ ground arith
                    | inl (done, done_ok) ↦
                        let (key, settled, stored) : (k ≡ b.next_key)
                            × (db'
                                ≡ settle_payment d at p
                                    (with_refund upper d amount at done b).refunds db)
                            × (b' ≡ with_refund upper d amount at done b) =
                          ground arith in
                        record {
                          at = at;
                          evidence = evidence;
                          amount = amount;
                          sign = sign;
                          fresh = fresh;
                          payment = p;
                          paid = paid;
                          request = request;
                          asked = asked;
                          checked = checked_ok;
                          lines_checked = lines_ok;
                          done = done;
                          lines_done = done_ok;
                          key = key;
                          stored = stored;
                          settled =
                              settled ∙ ap (λ x. settle_payment d at p x.refunds db) (sym stored);
                        }
                  ]
        ]
      ]

  pub recorded :
      (k : ℕ) (db' : Market) (b' : Books)
      → post_verified_refund upper d db r b ≡ ok (k, db', b')
      → Known k db' b' ⊎ Recorded k db' b'
  unfolding post_verified_refund
  recorded k db' b' h =
      elim (Result-cases (check_evidence d.gateway_reference d.idempotency_key d.confirmed_at)) [
        | inr (failure, bad) ↦ ground arith
        | inl (at, evidence) ↦ elim (Result-cases (positive d.amount)) [
          | inr (failure, bad) ↦ ground arith
          | inl (amount, sign) ↦ elim (Option-cases (find_refund d.idempotency_key b.refunds)) [
            | inr ((j, row), found) ↦
                let (matches, key, same_db, same) : (refund_matches upper d amount b.allocations
                        b.refund_allocations (j, row)
                      ≡ true)
                    × (j ≡ k)
                    × (db' ≡ db)
                    × (b' ≡ b) =
                  ground arith in
                inl (record {
                  at = at;
                  evidence = evidence;
                  amount = amount;
                  sign = sign;
                  row = row;
                  found = found ∙ ap (λ n. some (n, row)) key;
                  matches =
                      ap
                        (λ n.
                          refund_matches upper d amount b.allocations b.refund_allocations (n, row))
                        (sym key)
                      ∙ matches;
                  same_db = same_db;
                  same = same;
                })
            | inl fresh ↦ elim (Option-cases (lookup d.payment db.payments)) [
              | inl missing ↦ ground arith
              | inr (p, paid) ↦ elim (Option-cases (lookup p.order db.orders)) [
                | inl missing ↦ ground arith
                | inr (o, ordered) ↦ elim (Option-cases (lookup d.return_request r.requests)) [
                  | inl missing ↦ ground arith
                  | inr (request, asked) ↦
                      inr (
                        made k db' b' at amount p o request evidence sign fresh paid ordered asked
                          h)
                ]
              ]
            ]
          ]
        ]
      ]
