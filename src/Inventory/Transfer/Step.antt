-- ===== src/Inventory/Transfer/Step.antt =====
-- What each method of a transfer that succeeds has checked and written.
use mallbyte_api.Common.Table.{lookup, save}
use mallbyte_api.Common.Account.{User}
use Prim.Native.String.{String}
use mallbyte_api.Common.{
  ℕ, ◌≡◌, refl, ◌⊎◌, inl, inr, true, false, Option, none, some, arith, Option-cases, is_id, ok,
  Result-cases,
}
use mallbyte_api.Inventory.Movement.{Ledger, create}
use mallbyte_api.Inventory.Transfer.{
  Status, pending, approved, in_transit, completed, cancelled, StockTransfer, Inventory, may_handle,
  tracked, approve, issue, receipt, ship, receive, cancel,
}

-- The edges of the status diagram.
infix 40 ◌⟶◌
pub data ◌⟶◌ : Status → Status → Type 0 where
  approving : pending ⟶ approved
  shipping : approved ⟶ in_transit
  receiving : in_transit ⟶ completed
  cancelling_pending : pending ⟶ cancelled
  cancelling_approved : approved ⟶ cancelled

pub approve_inv :
    (user : Option User) (now pk : ℕ) (inv inv' : Inventory)
    → approve user now pk inv ≡ ok inv'
    → (u : User) × (t : StockTransfer) × (user ≡ some u)
      × (lookup pk inv.transfers ≡ some t)
      × (t.status ≡ pending)
      × (is_id t.requested_by u.id ≡ false)
      × (inv' ≡ record inv {
        transfers =
            save pk
              (record t { status = approved; approved_by = some u.id; approved_at = some now })
              inv.transfers;
      })
unfolding approve
approve_inv none now pk inv inv' h = cc
approve_inv (some u) now pk inv inv' h = elim (Option-cases (lookup pk inv.transfers)) [
  | inl missing ↦ ground arith
  | inr (t, found) ↦ (u, t, refl, found, ground arith, ground arith, ground arith)
]

pub cancel_inv :
    (user : Option User) (pk : ℕ) (inv inv' : Inventory)
    → cancel user pk inv ≡ ok inv'
    → (u : User) × (t : StockTransfer) × (user ≡ some u)
      × (lookup pk inv.transfers ≡ some t)
      × ((t.status ≡ pending) ⊎ (t.status ≡ approved))
      × (is_id t.requested_by u.id ≡ false)
      × (inv' ≡ record inv { transfers = save pk (record t { status = cancelled }) inv.transfers })
unfolding cancel
cancel_inv none pk inv inv' h = cc
cancel_inv (some u) pk inv inv' h = elim (Option-cases (lookup pk inv.transfers)) [
  | inl missing ↦ ground arith
  | inr (t, found) ↦ (u, t, refl, found, ground arith, ground arith, ground arith)
]

module _ (strip : String → String) where
  abbrev pub shipped_row : User → Option String → ℕ → StockTransfer → StockTransfer
  shipped_row u tracking_number now t = record t {
    status = in_transit;
    shipped_by = some u.id;
    shipped_at = some now;
    tracking_number = tracked strip tracking_number t.tracking_number;
  }

  pub ship_inv :
      (user : Option User) (number : Option String) (now pk : ℕ) (inv inv' : Inventory)
      → ship strip user number now pk inv ≡ ok inv'
      → (u : User) × (t : StockTransfer) × (l : Ledger) × (user ≡ some u)
        × (lookup pk inv.transfers ≡ some t)
        × (t.status ≡ approved)
        × (may_handle u t.from_warehouse inv.memberships ≡ true)
        × (create (issue u pk t) inv.ledger ≡ ok l)
        × (inv' ≡ record inv {
          ledger = l;
          transfers = save pk (shipped_row u number now t) inv.transfers;
        })
  unfolding ship
  ship_inv none number now pk inv inv' h = cc
  ship_inv (some u) number now pk inv inv' h = elim (Option-cases (lookup pk inv.transfers)) [
    | inl missing ↦ ground arith
    | inr (t, found) ↦ elim (Result-cases (create (issue u pk t) inv.ledger)) [
      | inr (e, raised) ↦ ground arith
      | inl (l, made) ↦ (u, t, l, refl, found, ground arith, ground arith, made, ground arith)
    ]
  ]

pub receive_inv :
    (user : Option User) (now pk : ℕ) (inv inv' : Inventory)
    → receive user now pk inv ≡ ok inv'
    → (u : User) × (t : StockTransfer) × (l : Ledger) × (user ≡ some u)
      × (lookup pk inv.transfers ≡ some t)
      × (t.status ≡ in_transit)
      × (may_handle u t.to_warehouse inv.memberships ≡ true)
      × (create (receipt u pk t) inv.ledger ≡ ok l)
      × (inv' ≡ record inv {
        ledger = l;
        transfers =
            save pk
              (record t { status = completed; received_by = some u.id; received_at = some now })
              inv.transfers;
      })
unfolding receive
receive_inv none now pk inv inv' h = cc
receive_inv (some u) now pk inv inv' h = elim (Option-cases (lookup pk inv.transfers)) [
  | inl missing ↦ ground arith
  | inr (t, found) ↦ elim (Result-cases (create (receipt u pk t) inv.ledger)) [
    | inr (e, raised) ↦ ground arith
    | inl (l, made) ↦ (u, t, l, refl, found, ground arith, ground arith, made, ground arith)
  ]
]
