-- ===== src/Watchlist/Polls.antt =====
-- The polling loop of one token ends, and what its end says of the polls.
use automatamain.Base.{
  ℕ, zero, suc, ◌+◌, ◌*◌, ◌≤◌, ◌≡◌, ◌⊎◌, inl, inr, refl, arith, Bool, true, false, Option, none,
  some, max, Bool-cases, le-or-lt,
}
use automatamain.Base.Float.{Float}
use automatamain.Score.TierB.{TierBGatePoll, tier_b_poll_passes}
use automatamain.Watchlist.{FreshWatchlistConfig, Watch, first_watch, note_poll, watch, watch_token}

module _ {F : Type 0} ⦃fl : Float F⦄ where
  abbrev pub passes : Option (TierBGatePoll F) → Bool
  passes none = false
  passes (some poll) = tier_b_poll_passes poll

  -- No poll of the first rounds passes.
  abbrev pub NonePass : (ℕ → Option (TierBGatePoll F)) → ℕ → Type 0
  NonePass polls zero = Unit
  NonePass polls (suc n) = (passes (polls n) ≡ false) × NonePass polls n

  -- The loop ended with the first poll that passes, or without any.
  abbrev pub IsVerdict : (ℕ → Option (TierBGatePoll F)) → Watch F → Type 0
  IsVerdict polls w =
      ((w.passed ≡ true)
        × ((i : ℕ) × (w.rounds ≡ suc i) × (passes (polls i) ≡ true) × NonePass polls i))
      ⊎ ((w.passed ≡ false) × NonePass polls w.rounds)

  note_poll-passed :
      (w : Watch F) (p : Option (TierBGatePoll F))
      → w.passed ≡ false
      → ((note_poll w p).passed ≡ passes p) × ((note_poll w p).rounds ≡ suc w.rounds)
  note_poll-passed w none h = (h, omega arith)
  note_poll-passed w (some poll) h = (refl, omega arith)

  module _ (poll_ms max_wait_ms : ℕ) (extra : ℕ → ℕ) (polls : ℕ → Option (TierBGatePoll F)) where
    watch_ends :
        (n elapsed : ℕ) (w : Watch F)
        → max_wait_ms ≤ elapsed + n * poll_ms
        → w.passed ≡ false
        → NonePass polls w.rounds
        → (w' : Watch F) × (watch poll_ms max_wait_ms extra polls (suc n) elapsed w ≡ some w')
          × (w'.rounds ≤ w.rounds + n)
          × IsVerdict polls w'
    unfolding watch
    watch_ends zero elapsed w enough going none_yet =
        (w, ground (arith, enough), omega arith, inr (going, none_yet))
    watch_ends (suc n) elapsed w enough going none_yet =
        let noted = note_poll-passed w (polls w.rounds) going in
        elim (le-or-lt max_wait_ms elapsed) [
          | inl late ↦ (w, ground (arith, late), omega arith, inr (going, none_yet))
          | inr early ↦ elim (Bool-cases (passes (polls w.rounds))) [
            | inl pass ↦ (
              note_poll w (polls w.rounds),
              ground (arith, early, noted, pass),
              omega (arith, noted),
              inl (ground (arith, noted, pass), (w.rounds, noted.1, pass, none_yet)),
            )
            | inr fail ↦
                let rest =
                  watch_ends n (elapsed + poll_ms + extra w.rounds) (note_poll w (polls w.rounds))
                    (grind (arith, enough)) (ground (arith, noted, fail))
                    (rw noted.1 (fail, none_yet)) in
                (
                  rest.0,
                  ground (arith, early, noted, fail, rest),
                  omega (arith, rest, noted),
                  rest.3,
                )
          ]
        ]

  -- With enough fuel, one more than the longest wait divided by the shortest interval, rounded up,
  -- the polling loop of a token ends, whatever the polls answer and however long they take. It ends
  -- within that many rounds, passed with the first poll that passes, or not passed and without any.
  pub watch_token_ends :
      (cfg : FreshWatchlistConfig) (extra : ℕ → ℕ) (polls : ℕ → Option (TierBGatePoll F)) (n : ℕ)
      → max cfg.max_wait_ms (max cfg.poll_interval_ms 1) ≤ n * max cfg.poll_interval_ms 1
      → (w : Watch F) × (watch_token cfg extra polls (suc n) ≡ some w)
        × (w.rounds ≤ n)
        × IsVerdict polls w
  unfolding watch_token
  watch_token_ends cfg extra polls n enough =
      let poll_ms = max cfg.poll_interval_ms 1 in
      let ran =
        watch_ends poll_ms (max cfg.max_wait_ms poll_ms) extra polls n 0 first_watch
          (omega (arith, enough)) refl tt in
      (ran.0, ran.1, omega (arith, ran), ran.3)
