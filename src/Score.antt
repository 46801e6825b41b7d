-- ===== src/Score.antt =====
-- The score of a token and its tier (src/scoring/score_engine.rs, anti_rug.rs, and the gates of
-- features.rs). `F` is f64; scores are i32 with the wrap-around of a release build.
pub mod Types
pub mod AntiRug
pub mod TierB
pub mod Engine
pub mod Gates
pub mod Continuation
pub mod SecondLook
pub mod Examples
pub mod Tests
