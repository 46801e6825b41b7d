-- ===== src/Watchlist.antt =====
-- Fresh tokens that wait for their gates (src/pipeline/fresh_watchlist.rs): the admission under the
-- lock, the counter beside it, and the polling task of one token. A mint is a number.
pub mod System
pub mod Invariant
pub mod Cap
pub mod Polls
pub mod Tests
use automatamain.Base.{
  ℕ, suc, zero, ◌+◌, ◌-◌, ◌*◌, ◌%◌, ◌^◌, max, Bool, true, false, not, ◌&&◌, Option, none, some,
  List, [], ◌∷◌, if◌then◌else◌, ltb, leb, ◌==◌, keep,
}
use automatamain.Base.Float.{Float}
use automatamain.Score.TierB.{TierBGatePoll, tier_b_poll_passes}

pub record FreshWatchlistConfig : Type 0 where
  pub enabled : Bool
  pub poll_interval_ms : ℕ
  pub max_wait_ms : ℕ
  pub max_concurrent : ℕ

pub data TryAddError : Type 0 where
  disabled duplicate cap_full : TryAddError

-- The mutex's set and the atomic counter.
pub record FreshWatchlistManager : Type 0 where
  pub active : List ℕ
  pub running : ℕ

abbrev pub empty_watchlist : FreshWatchlistManager
empty_watchlist = record { active = []; running = 0 }

pub data Admission : Type 0 where
  refused : TryAddError → Admission
  admitted : FreshWatchlistManager → Admission

abbrev pub has : ℕ → List ℕ → Bool
has m [] = false
has m (x ∷ xs) = let rest = has m xs in if x == m then true else rest

-- What `try_add` does up to the end of the lock. The counter is raised after it, by `note_running`.
unfoldable pub try_add : FreshWatchlistConfig → FreshWatchlistManager → ℕ → Admission
try_add cfg w mint =
    if not cfg.enabled
    then refused disabled
    else if has mint w.active
    then refused duplicate
    else if leb cfg.max_concurrent w.running
    then refused cap_full
    else admitted (record w { active = mint ∷ w.active })

-- `running.fetch_add(1)` and `running.fetch_sub(1)` on an AtomicUsize of 64 bits, which wraps.
unfoldable pub note_running : FreshWatchlistManager → FreshWatchlistManager
note_running w = record w { running = (w.running + 1) % 2 ^ 64 }

-- The end of a polling task, in its two steps.
unfoldable pub release : FreshWatchlistManager → ℕ → FreshWatchlistManager
release w mint = record w { active = keep (λ x. not (x == mint)) w.active }

unfoldable pub note_stopped : FreshWatchlistManager → FreshWatchlistManager
note_stopped w = record w { running = (w.running + (2 ^ 64 - 1)) % 2 ^ 64 }

-- What the polling loop has seen when it ends, and after how many rounds.
pub record Watch (F : Type 0) : Type 0 where
  pub passed : Bool
  pub passed_hot_override : Bool
  pub last_momentum_only_poll : Option (TierBGatePoll F)
  pub rounds : ℕ

module _ {F : Type 0} where
  abbrev pub first_watch : Watch F
  first_watch = record {
    passed = false;
    passed_hot_override = false;
    last_momentum_only_poll = none;
    rounds = 0;
  }

module _ {F : Type 0} ⦃fl : Float F⦄ where
  -- One answer of `poll_b_gates`; a pass ends the loop.
  abbrev pub note_poll : Watch F → Option (TierBGatePoll F) → Watch F
  note_poll w none = record w { rounds = w.rounds + 1 }
  note_poll w (some poll) =
      let seen = if poll.momentum_only_fail then some poll else w.last_momentum_only_poll in
      let passes = tier_b_poll_passes poll in
      record {
        passed = passes;
        passed_hot_override = passes && poll.hot_override;
        last_momentum_only_poll = seen;
        rounds = w.rounds + 1;
      }

  -- The loop on fuel, with the time since its start. Round `i` sleeps for `poll_ms` milliseconds, and
  -- `extra i` more pass until its answer `polls i`. `none` is the end of the fuel.
  unfoldable pub watch :
      (poll_ms max_wait_ms : ℕ)
      → (ℕ → ℕ)
      → (ℕ → Option (TierBGatePoll F))
      → (fuel elapsed : ℕ) → Watch F
      → Option (Watch F)
  watch poll_ms max_wait_ms extra polls zero elapsed w = none
  watch poll_ms max_wait_ms extra polls (suc fuel) elapsed w =
      let w' = note_poll w (polls w.rounds) in
      let rest =
        watch poll_ms max_wait_ms extra polls fuel (elapsed + poll_ms + extra w.rounds) w' in
      if ltb elapsed max_wait_ms then if w'.passed then some w' else rest else some w

  -- The loop with the intervals of the configuration.
  unfoldable pub watch_token :
      FreshWatchlistConfig → (ℕ → ℕ) → (ℕ → Option (TierBGatePoll F)) → ℕ → Option (Watch F)
  watch_token cfg extra polls fuel =
      let poll_ms = max cfg.poll_interval_ms 1 in
      watch poll_ms (max cfg.max_wait_ms poll_ms) extra polls fuel 0 first_watch
