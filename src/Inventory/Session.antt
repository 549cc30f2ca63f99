-- ===== src/Inventory/Session.antt =====
-- Any sequence of calls of the methods of apps/inventory/models.py. A call that raises is rolled
-- back, so it leaves the tables as they were.
pub mod Invariant
pub mod Units
use mallbyte_api.Common.Account.{User}
use Prim.Native.String.{String}
use mallbyte_api.Common.{
  ℕ, zero, suc, ◌+◌, ◌-◌, ◌*◌, ◌/◌, ◌%◌, ◌≤◌, ◌<◌, min, ◌≡◌, refl, sym, ap, ◌∙◌, ◌≢◌, ◌↔◌, ◌⊎◌, inl,
  inr, Bool, true, false, not, ◌&&◌, ◌||◌, Option, none, some, List, [], ◌∷◌, ◌++◌, arith, ltb, leb,
  ◌==◌, if◌then◌else◌, Bool-cases, Option-cases, is_some, is_id, ℤ, pos, negsuc, pos_part, neg_part,
  sub_ℕ, ◌+ℤ◌, ◌-ℤ◌, ◌≤ℤ◌, ltb_ℤ, leb_ℤ, +ℤ_parts, -ℤ_parts, eq_of_parts, int_laws, Result, ok, err,
  ◌>>=◌, ◌>>◌, raise_if, or_raise, map_err, Result-cases,
}
use mallbyte_api.Inventory.Failure.{Error}
use mallbyte_api.Inventory.Stock.{Stock, reserve, release_reservation, with_stock}
use mallbyte_api.Inventory.Movement.{StockMovement, Ledger, create}
use mallbyte_api.Inventory.Transfer
use mallbyte_api.Inventory.Transfer.{Inventory}

pub data Call : Type 0 where
  reserving releasing : ℕ → ℕ → ℤ → Option ℕ → Call
  moving : StockMovement → Call
  requesting : ℕ → ℕ → ℕ → ℕ → Option ℕ → Call
  approving receiving : Option User → ℕ → ℕ → Call
  shipping : Option User → Option String → ℕ → ℕ → Call
  cancelling : Option User → ℕ → Call

-- A method that changes the counters alone.
abbrev pub on_stocks : Inventory → Result Error (List Stock) → Result Error Inventory
on_stocks inv r = do
  stocks ← r
  let ledger : Ledger = record inv.ledger { stocks = stocks }
  ok (record inv { ledger = ledger })

-- The tables after a call, raised or not.
unfoldable pub after : Result Error Inventory → Inventory → Inventory
after (ok inv') inv = inv'
after (err e) inv = inv

module _ (strip : String → String) where
  unfoldable pub apply : Call → Inventory → Result Error Inventory
  apply (reserving p w q user) inv =
      on_stocks inv (with_stock p w (reserve q user) inv.ledger.stocks)
  apply (releasing p w q user) inv =
      on_stocks inv (with_stock p w (release_reservation q user) inv.ledger.stocks)
  apply (moving m) inv = do ledger ← create m inv.ledger; ok (record inv { ledger = ledger })
  apply (requesting from to p q by) inv = Transfer.request from to p q by inv
  apply (approving user now pk) inv = Transfer.approve user now pk inv
  apply (receiving user now pk) inv = Transfer.receive user now pk inv
  apply (shipping user number now pk) inv = Transfer.ship strip user number now pk inv
  apply (cancelling user pk) inv = Transfer.cancel user pk inv

  unfoldable pub run : List Call → Inventory → Inventory
  run [] inv = inv
  run (c ∷ cs) inv = run cs (after (apply c inv) inv)
