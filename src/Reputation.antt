-- ===== src/Reputation.antt =====
-- What the bot remembers of developers, wallets and mints: src/scoring/dev_ranker.rs,
-- src/scoring/smart_money.rs, src/autobuy/curve_quarantine.rs and src/autobuy/dev_blacklist.rs.
pub mod DevRanker
pub mod SmartMoney
pub mod Quarantine
pub mod Blacklist
pub mod Tests
