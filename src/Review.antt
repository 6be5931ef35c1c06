-- ===== src/Review.antt =====
-- engine/review: what humans see of a case, and the queues that they work from.
pub mod State
pub mod Queues
pub mod Actions
mod Tests
