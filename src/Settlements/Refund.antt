-- ===== src/Settlements/Refund.antt =====
-- `post_verified_refund` and `_refund_replay_matches` of apps/settlements/services.py.
pub mod Line
pub mod Replay
pub mod Check
pub mod Post
pub mod Effect
pub mod Within
pub mod Kept
pub mod Bounds
