-- ===== src/Lib.antt =====
-- A model of the trading bot of this repository: a Rust program that watches new tokens on a bonding
-- curve, scores them, buys with a risk gate, and sells by rules.
--
-- The program's parts and how they interact. The scoring engine (src/scoring/) turns the features of a
-- token into points and a tier; gates and a continuation poll may still refuse the token. The strategy
-- controller (src/scoring/strategy_controller.rs) is asked before every buy and is told of every
-- position that opens or closes. The position manager (src/autobuy/manager.rs) is one task that takes
-- messages; it keeps the open positions (src/autobuy/positions.rs), and a round goes over them and asks
-- the rules of the exit engine (src/autobuy/exit_engine.rs) in a fixed order, queueing sales, whose
-- results come back as messages. The live broker (src/autobuy/pump_brocker.rs) computes sales on the
-- curve. Around them, tasks with a table or a queue of their own keep the accounts of all traders of a
-- token (src/trading/), the record of developers and of early buyers (src/scoring/), the mints in
-- quarantine (src/autobuy/curve_quarantine.rs), the fresh tokens that wait for their gates
-- (src/pipeline/fresh_watchlist.rs), and the writes to the database (src/persistence/write_queue.rs).
--
-- Base: shared helpers. Native numbers, Boolean tests, lists, integers with their wrap-around, texts
-- as lists of codes, computations that may panic (Partial, whose `none` is the panic), and tables with
-- one entry for each key (Assoc). Base/Float is f64: a record of operations that every
-- definition takes as an instance, a record of laws of its order that the theorems name which need
-- them, and whole millionths as an instance of both.
-- Curve: the formulas of src/autobuy/pump_brocker.rs. BondingCurveState is the state of the curve;
-- bonding_curve_mcap_raw is bonding_curve_mcap_sol before its conversion to a float. Saturating u128
-- arithmetic is written out. Bounds and Chunks hold the theorems.
-- Strategy: src/scoring/strategy_controller.rs. StrategyController is the state, with one function per
-- method; the readings of the clock are arguments. note_streak, note_outcome and note_regime are parts
-- of note_position_closed. Gate, Config, Budget and Outcomes hold the theorems; try_buy in Budget is
-- a buy attempt, the gate and then note_position_opened if it allows.
-- Exit: src/autobuy/exit_engine.rs, src/autobuy/positions.rs and the rounds of src/autobuy/manager.rs.
-- Types, Entry, Metrics and Rules hold the data and the functions of exit_engine.rs; Tape the tape of
-- market values; Window the adaptive window of the time kill; Tick the body of process_positions:
-- Observe is what a round reads, Stops and Profits are the rules, each of which may queue a sale and
-- so end the round. Messages holds the messages that change a position between the rounds, and its
-- history. Flags, Order, Floors, Valid, Bounds, History and Flight hold the theorems.
-- Score: src/scoring/score_engine.rs and src/scoring/anti_rug.rs, and the gates and polls of
-- src/scoring/features.rs. A board is the total and the items so far; the parts that score_legacy and
-- score_v2 share are one function. TierB, Gates, Continuation and SecondLook are the gates. A poll
-- returns none where the code returns Ok(()).
-- Creator: src/autobuy/filters/creator.rs, the filter on the record of a token's creator.
-- Pipeline: src/pipeline/score_buy.rs, from the assembled features to the order. run_scoring_and_buy
-- scores and decides; the windows of the tape that the code waits for are its arguments, and the
-- second of them is the window of the recheck. Confirm holds the confirmation polls, Safety
-- and Minimum the theorems.
-- Wallets: src/autobuy/wallet_registry.rs. What the environment and the brokers answer while the
-- registry is built is a parameter. Build and Patch hold the theorems.
-- Manager: the messages of src/autobuy/manager.rs outside the rounds, over the positions of all
-- wallets. An OpenPosition is a position of Exit with its key and its accounts. Buys models
-- InitiateBuy and ExecuteBuy, Buys/Opening the position of a filled buy, Buys/Result
-- apply_buy_result, Sells models ExecuteSell; what brokers answer is an argument. Buys/Gate, Payers,
-- Signal, Opened and Fill hold the theorems on buys, Sells/Accounts that on sales. System is the step
-- relation of the manager, the fan-outs of its signals and the buys that
-- run; a message of a fan-out is taken when the manager handles it. SameMarks, Shut, Limit and Occupied
-- hold what one message leaves, Marks, Closed and Room what holds of every run.
-- Latency: src/telemetry/buy_latency.rs, the times of the buys of a mint; what it logs is returned.
-- Learning: src/learning/merge.rs and src/learning/engine.rs. learning_round is one turn of the loop
-- of the engine, merge_thresholds what a score is given. Bounds and Rounds hold the theorems.
-- Trading: src/trading/, the amounts of src/helper.rs, the actions of
-- src/generalize/general_commands.rs and the pool of src/launchpads/pump/pool.rs. Types, Trader, Swarm
-- and Pool hold the definitions; Swarm/Ledger the specification, one account for each address, which
-- Swarm/Members, Refinement and Holdings connect with the list that the code keeps.
-- Watchlist: src/pipeline/fresh_watchlist.rs. The operations are cut where the code leaves its lock;
-- System is the step relation of the tasks that share the list, Polls the loop of one task. The
-- counter is of 64 bits and wraps.
-- Reputation: src/scoring/dev_ranker.rs, src/scoring/smart_money.rs,
-- src/autobuy/curve_quarantine.rs and src/autobuy/dev_blacklist.rs, with a table for each hash map.
-- WriteQueue: src/persistence/write_queue.rs and the row of src/persistence/coin_mcap_tape.rs. An event
-- is a send or what the select loop of the worker sees; Saves holds what the database is given.
--
-- Bounds: u32, u64 and i32 counters wrap as in a release build, subtraction that saturates is the
-- subtraction of natural numbers. One loop has fuel, the polls of the
-- watchlist, and enough of it is the longest wait divided by the interval, rounded up, and one more;
-- every other loop goes over a list.
--
-- Not modelled: network, database, dashboard and process start, which are input and output; the library
-- sips; texts of reasons and log lines; default configurations. A position of
-- Exit has the fields that the rules read, and a history there follows one position. The files of
-- the tables and the channels in front of their tasks are left out, except that of the write queue.
-- What the features are assembled from and the decoding of the feed have no model yet.
pub mod Base
pub mod Curve
pub mod Strategy
pub mod Exit
pub mod Score
pub mod Creator
pub mod Wallets
pub mod Latency
pub mod Learning
pub mod Manager
pub mod Pipeline
pub mod Trading
pub mod Watchlist
pub mod Reputation
pub mod WriteQueue
