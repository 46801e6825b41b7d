-- ===== src/Exit.antt =====
-- The exit engine: the decisions of src/autobuy/exit_engine.rs, the position that they are taken on
-- (src/autobuy/positions.rs), and the tick of src/autobuy/manager.rs that takes them. `F` is f64.
pub mod Types
pub mod Entry
pub mod Metrics
pub mod Rules
pub mod Tape
pub mod Window
pub mod Tick
pub mod Messages
pub mod History
pub mod Flight
pub mod Bounds
pub mod Examples
pub mod Tests
