-- ===== src/Shipping/Transition/Change.antt =====
-- Any of the four changes of a shipment.
use Prim.Native.String.{String}
use mallbyte_api.Common.{ℕ, ◌≡◌, Option, ok}
use mallbyte_api.Market.State.{Market}
use mallbyte_api.Shipping.Transition.{mark_ready, mark_shipped, mark_delivered, cancel}
use mallbyte_api.Shipping.Transition.Single.{
  IsSingle, Moves, Moves-IsSingle, mark_ready-Moves, mark_shipped-Moves, mark_delivered-Moves,
  cancel-Moves,
}

-- One change of a shipment that succeeds.
pub data Change (pk : ℕ) (db db' : Market) : Type 0 where
  readying : (user : Option ℕ) (now : ℕ) → mark_ready user now pk db ≡ ok db' → Change pk db db'
  shipping :
      (number url : String) (user : Option ℕ) (now : ℕ)
      → mark_shipped number url user now pk db ≡ ok db'
      → Change pk db db'
  delivering :
      (user : Option ℕ) (now : ℕ) → mark_delivered user now pk db ≡ ok db' → Change pk db db'
  cancelling : (user : Option ℕ) (now : ℕ) → cancel user now pk db ≡ ok db' → Change pk db db'

Change-Moves : (pk : ℕ) (db db' : Market) → Change pk db db' → Moves pk db db'
Change-Moves pk db db' (readying user now h) = mark_ready-Moves user now pk db db' h
Change-Moves pk db db' (shipping number url user now h) =
    mark_shipped-Moves user now pk db db' number url h
Change-Moves pk db db' (delivering user now h) = mark_delivered-Moves user now pk db db' h
Change-Moves pk db db' (cancelling user now h) = cancel-Moves user now pk db db' h

-- Where `mark_ready`, `mark_shipped`, `mark_delivered` or `cancel` succeeds, it rewrites one stored
-- shipment along an edge of the status diagram, keeps its seller and changes no other shipment; and
-- where each seller's order has at most one active shipment, it still has.
pub Change-IsSingle :
    (pk : ℕ) (db db' : Market) → Change pk db db' → IsSingle db → Moves pk db db' × IsSingle db'
Change-IsSingle pk db db' change single =
    let moves = Change-Moves pk db db' change in (moves, Moves-IsSingle pk db db' moves single)
