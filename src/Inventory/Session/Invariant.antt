-- ===== src/Inventory/Session/Invariant.antt =====
-- The invariant of the inventory, kept by every sequence of calls.
use Prim.Native.String.{String}
use mallbyte_api.Common.{
  ℕ, ◌≡◌, ap, ◌∙◌, inl, inr, Option, List, [], ◌∷◌, arith, pos, Result, ok, Result-cases,
}
use mallbyte_api.Inventory.Failure.{Error}
use mallbyte_api.Inventory.Stock.{Stock, reserve, release_reservation, with_stock, IsSound}
use mallbyte_api.Inventory.Stock.Table.{AllSound, with_stock-AllSound}
use mallbyte_api.Inventory.Stock.Reservation.{reserve-IsSound, release-IsSound}
use mallbyte_api.Inventory.Movement.{StockMovement, Ledger, create}
use mallbyte_api.Inventory.Movement.Effect.{create-AllSound}
use mallbyte_api.Inventory.Movement.Audit.{IsRecorded, create-IsRecorded}
use mallbyte_api.Inventory.Transfer.{Inventory, receipt, issue, request}
use mallbyte_api.Inventory.Transfer.Step.{ship_inv, receive_inv, approve_inv, cancel_inv}
use mallbyte_api.Inventory.Transfer.Review.{
  AllReviewed, request-AllReviewed, approve-AllReviewed, ship-AllReviewed, receive-AllReviewed,
  cancel-AllReviewed,
}
use mallbyte_api.Inventory.Place.{
  KeepsTotal, reserve-KeepsTotal, release-KeepsTotal, with_stock-quantity,
}
use mallbyte_api.Inventory.Session.{
  Call, reserving, releasing, moving, requesting, approving, receiving, shipping, cancelling, apply,
  after, run, on_stocks,
}

-- Reserved units are there, the counters are what the movements record, and every transfer was
-- reviewed.
pub record IsConsistent (inv : Inventory) : Type 0 where
  pub sound : AllSound inv.ledger.stocks
  pub recorded : IsRecorded inv.ledger
  pub reviewed : AllReviewed inv

request_ledger :
    (from to product quantity : ℕ) (by : Option ℕ) (inv inv' : Inventory)
    → request from to product quantity by inv ≡ ok inv'
    → inv'.ledger ≡ inv.ledger
unfolding request
request_ledger from to product quantity by inv inv' h = ground arith

on_stocks-IsConsistent :
    (p w : ℕ) (method : Stock → Result Error Stock) (inv inv' : Inventory)
    → KeepsTotal method
    → ((s s' : Stock) → method s ≡ ok s' → IsSound s → IsSound s')
    → on_stocks inv (with_stock p w method inv.ledger.stocks) ≡ ok inv'
    → IsConsistent inv
    → IsConsistent inv'
on_stocks-IsConsistent p w method inv inv' keep sound h v =
    elim (Result-cases (with_stock p w method inv.ledger.stocks)) [
      | inr (e, raised) ↦ ground arith
      | inl (t', done) ↦
          let ledger : Ledger = record inv.ledger { stocks = t' } in
          let new : inv' ≡ record inv { ledger = ledger } = ground arith in
          rw new (record {
            sound = with_stock-AllSound p w method inv.ledger.stocks sound v.sound done;
            recorded = λ q u.
                ap pos (with_stock-quantity p w method inv.ledger.stocks t' keep done q u)
                ∙ v.recorded q u;
            reviewed = v.reviewed;
          })
    ]

moving-IsConsistent :
    (m : StockMovement) (inv : Inventory) (l : Ledger)
    → create m inv.ledger ≡ ok l
    → IsConsistent inv
    → AllSound l.stocks × IsRecorded l
moving-IsConsistent m inv l made v =
    (create-AllSound m inv.ledger l made v.sound, create-IsRecorded m inv.ledger l made v.recorded)

module _ (strip : String → String) where
  -- Every call that succeeds keeps the invariant.
  pub apply-IsConsistent :
      (c : Call) (inv inv' : Inventory)
      → apply strip c inv ≡ ok inv'
      → IsConsistent inv
      → IsConsistent inv'
  unfolding apply
  apply-IsConsistent (reserving p w q user) inv inv' h v =
      on_stocks-IsConsistent p w (reserve q user) inv inv' (reserve-KeepsTotal q user)
        (λ s s'. reserve-IsSound q user s s') h v
  apply-IsConsistent (releasing p w q user) inv inv' h v =
      on_stocks-IsConsistent p w (release_reservation q user) inv inv' (release-KeepsTotal q user)
        (λ s s'. release-IsSound q user s s') h v
  apply-IsConsistent (moving m) inv inv' h v = elim (Result-cases (create m inv.ledger)) [
    | inr (e, raised) ↦ ground arith
    | inl (l, made) ↦
        let (sound, recorded) = moving-IsConsistent m inv l made v in
        let new : inv' ≡ record inv { ledger = l } = ground arith in
        rw new (record { sound = sound; recorded = recorded; reviewed = v.reviewed })
  ]
  apply-IsConsistent (requesting from to p q by) inv inv' h v =
      let kept = request_ledger from to p q by inv inv' h in
      record {
        sound = rw kept v.sound;
        recorded = rw kept v.recorded;
        reviewed = request-AllReviewed from to p q by inv inv' h v.reviewed;
      }
  apply-IsConsistent (approving user now pk) inv inv' h v =
      let (u, t, who, found, was, other, new) = approve_inv user now pk inv inv' h in
      record {
        sound = rw new v.sound;
        recorded = rw new v.recorded;
        reviewed = approve-AllReviewed user now pk inv inv' h v.reviewed;
      }
  apply-IsConsistent (receiving user now pk) inv inv' h v =
      let (u, t, l, who, found, was, may, made, new) = receive_inv user now pk inv inv' h in
      let (sound, recorded) = moving-IsConsistent (receipt u pk t) inv l made v in
      record {
        sound = rw new sound;
        recorded = rw new recorded;
        reviewed = receive-AllReviewed user now pk inv inv' h v.reviewed;
      }
  apply-IsConsistent (shipping user number now pk) inv inv' h v =
      let (u, t, l, who, found, was, may, made, new) =
        ship_inv strip user number now pk inv inv' h in
      let (sound, recorded) = moving-IsConsistent (issue u pk t) inv l made v in
      record {
        sound = rw new sound;
        recorded = rw new recorded;
        reviewed = ship-AllReviewed strip user number now pk inv inv' h v.reviewed;
      }
  apply-IsConsistent (cancelling user pk) inv inv' h v =
      let (u, t, who, found, was, other, new) = cancel_inv user pk inv inv' h in
      record {
        sound = rw new v.sound;
        recorded = rw new v.recorded;
        reviewed = cancel-AllReviewed user pk inv inv' h v.reviewed;
      }

  -- Whatever is called in whatever order, and whatever raises on the way, from consistent tables:
  -- no row reserves more than it holds, every counter is the sum of its recorded movements, and
  -- every transfer past review names an approver who did not request it.
  pub run-IsConsistent :
      (cs : List Call) (inv : Inventory) → IsConsistent inv → IsConsistent (run strip cs inv)
  unfolding run after
  run-IsConsistent [] inv v = v
  run-IsConsistent (c ∷ cs) inv v = elim (Result-cases (apply strip c inv)) [
    | inl (inv', done) ↦ rw done (run-IsConsistent cs inv' (apply-IsConsistent c inv inv' done v))
    | inr (e, raised) ↦ rw raised (run-IsConsistent cs inv v)
  ]
