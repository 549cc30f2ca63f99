-- ===== src/Shipping/Transition/Follow.antt =====
-- The statuses that follow a change of a seller's shipment.
use mallbyte_api.Market.State.{Market}
