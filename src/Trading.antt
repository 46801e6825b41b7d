-- ===== src/Trading.antt =====
-- Who trades a token and what the trades did to it: src/trading/, the actions of
-- src/generalize/general_commands.rs and the pool of src/launchpads/pump/pool.rs.
pub mod Types
pub mod Amounts
pub mod Trader
pub mod Swarm
pub mod Pool
pub mod Tests
