-- ===== src/Returns.antt =====
-- apps/returns: return requests.
pub mod Row
pub mod Submit
pub mod Review
pub mod Life
