-- ===== src/Returns/Row.antt =====
-- The models of apps/returns/models.py, in the tables that the services write. Amounts are in
-- hundredths, which the columns hold.
use mallbyte_api.Common.{ℕ, Option, List}

pub data Status : Type 0 where
  draft submitted under_review approved rejected waiting_for_item item_received : Status
  inspecting refund_pending refunded replaced cancelled closed : Status

pub record ReturnRequest : Type 0 where
  pub customer : Option ℕ
  pub order : ℕ
  pub status : Status
  pub total_requested_amount : ℕ
  pub total_approved_amount : ℕ
  pub reviewed_by : Option ℕ
  pub reviewed_at : Option ℕ
  pub closed_at : Option ℕ

pub data ItemStatus : Type 0 where
  requested approved rejected received accepted refunded replaced : ItemStatus

pub record ReturnItem : Type 0 where
  pub return_request : ℕ
  pub order_item : ℕ
  pub quantity : ℕ
  pub status : ItemStatus
  pub requested_refund_amount : ℕ
  pub approved_refund_amount : ℕ

-- The row of a request, whose one-to-one column is the key.
pub record ReturnShipment : Type 0 where
  pub return_request : ℕ
  pub received_at : Option ℕ

pub record ReturnStatusHistory : Type 0 where
  pub return_request : ℕ
  pub old_status : Option Status
  pub new_status : Status
  pub changed_by : ℕ

-- The items stand in the order of their keys.
pub record Returns : Type 0 where
  pub requests : List (ℕ × ReturnRequest)
  pub items : List (ℕ × ReturnItem)
  pub shipments : List ReturnShipment
  pub history : List ReturnStatusHistory
  pub next_key : ℕ
