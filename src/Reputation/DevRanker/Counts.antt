-- ===== src/Reputation/DevRanker/Counts.antt =====
-- What the counters of a developer count, and what the snapshot adds up to.
use automatamain.Base.{
  ℕ, suc, ◌+◌, ◌^◌, ◌<◌, ◌≡◌, refl, ap, ◌∙◌, arith, Bool, true, false, Option, none, some, List, [],
  ◌∷◌, keep, length, ◌==◌,
}
use automatamain.Base.Float.{Float}
use automatamain.Base.Assoc.{get?, or_default, fold_entry, get?-feed}
use automatamain.Reputation.DevRanker.{
  DevRecord, TokenOutcome, strong_success, success, neutral_outcome, rug, OutcomeNote,
  DevRankerSnapshot, default_record, note_outcome, note_outcomes, categorize, category,
  count_category, count_all, snapshot,
}

abbrev same_outcome : TokenOutcome → TokenOutcome → Bool
same_outcome strong_success strong_success = true
same_outcome success success = true
same_outcome neutral_outcome neutral_outcome = true
same_outcome rug rug = true
same_outcome _ _ = false

-- How many of the updates have an outcome.
abbrev pub tally : TokenOutcome → List OutcomeNote → ℕ
tally o us = length (keep (λ u. same_outcome u.outcome o) us)

abbrev pub own : ℕ → List OutcomeNote → List OutcomeNote
own dev us = keep (λ u. u.dev == dev) us

-- Every update has one outcome.
length-tallies :
    (us : List OutcomeNote)
    → tally strong_success us + tally success us + tally neutral_outcome us + tally rug us
      ≡ length us
length-tallies [] = refl
length-tallies (u ∷ us) = ground (arith, length-tallies us)

-- The five numbers of a snapshot; the sixth category is given to no developer of the table.
abbrev counted_devs : DevRankerSnapshot → ℕ
counted_devs s = s.a_plus + s.a + s.neutral + s.bad + s.stale

module _ {F : Type 0} ⦃fl : Float F⦄ where
  -- The counters of a record are those of another one and of the updates since.
  pub record Counts (before after : DevRecord F) (us : List OutcomeNote) : Type 0 where
    pub total : after.total_tokens ≡ before.total_tokens + length us
    pub strong : after.strong_successes ≡ before.strong_successes + tally strong_success us
    pub good : after.successes ≡ before.successes + tally success us
    pub even : after.neutrals ≡ before.neutrals + tally neutral_outcome us
    pub bad : after.rugs ≡ before.rugs + tally rug us

  -- No counter reaches 2 ^ 64 in n more updates.
  record HasRoom (r : DevRecord F) (n : ℕ) : Type 0 where
    total : r.total_tokens + n < 2 ^ 64
    strong : r.strong_successes + n < 2 ^ 64
    good : r.successes + n < 2 ^ 64
    even : r.neutrals + n < 2 ^ 64
    bad : r.rugs + n < 2 ^ 64

  one-Counts :
      (u : OutcomeNote) (r : DevRecord F) → HasRoom r 1 → Counts r (note_outcome u r) (u ∷ [])
  unfolding note_outcome
  one-Counts u r room = ground (arith, room)

  one-HasRoom :
      (u : OutcomeNote) (r : DevRecord F) (n : ℕ) → HasRoom r (suc n) → HasRoom (note_outcome u r) n
  unfolding note_outcome
  one-HasRoom u r n room = ground (arith, room)

  or_new : Option (DevRecord F) → DevRecord F
  or_new o = or_default default_record o

  fold-Counts :
      (us : List OutcomeNote) (o : Option (DevRecord F))
      → HasRoom (or_new o) (length us)
      → Counts (or_new o) (or_new (fold_entry default_record (λ u. u.dev) note_outcome us o)) us
  unfolding fold_entry or_new
  fold-Counts [] o room = record {
    total = omega arith;
    strong = omega arith;
    good = omega arith;
    even = omega arith;
    bad = omega arith;
  }
  fold-Counts (u ∷ us) o room =
      let first = one-Counts u (or_new o) (ground (arith, room)) in
      let rest =
        fold-Counts us (some (note_outcome u (or_new o)))
          (one-HasRoom u (or_new o) (length us) room) in
      ground (arith, first, rest)

  category_record :
      (table : List (ℕ × DevRecord F)) (dev now ttl_secs : ℕ)
      → (category table dev now ttl_secs).1 ≡ or_new (get? dev table)
  unfolding category or_new
  category_record table dev now ttl_secs = ground arith

  -- Over fewer than 2 ^ 64 outcomes from an empty table, the answer for any developer, also one that
  -- was never seen, counts exactly the outcomes of that developer, each in its kind; and the tokens are
  -- the sum of the kinds.
  pub category-Counts :
      (us : List OutcomeNote) (dev now ttl_secs : ℕ)
      → length (own dev us) < 2 ^ 64
      → let r = (category {F = F} (note_outcomes us []) dev now ttl_secs).1 in
        Counts default_record r (own dev us)
        × (r.total_tokens ≡ r.strong_successes + r.successes + r.neutrals + r.rugs)
  unfolding get? or_new
  category-Counts us dev now ttl_secs few =
      let room : HasRoom (or_new none) (length (own dev us)) = ground (arith, few) in
      let entry =
        category_record (note_outcomes us []) dev now ttl_secs
        ∙ ap or_new (get?-feed default_record (λ u. u.dev) note_outcome dev us []) in
      let counted = fold-Counts (own dev us) none room in
      rw entry (
        counted,
        omega (
          arith,
          counted.total,
          counted.strong,
          counted.good,
          counted.even,
          counted.bad,
          length-tallies (own dev us),
        ),
      )

  count_all-counts :
      (table : List (ℕ × DevRecord F)) (now ttl_secs : ℕ) (s : DevRankerSnapshot)
      → (counted_devs (count_all table now ttl_secs s) ≡ counted_devs s + length table)
        × ((count_all table now ttl_secs s).total_devs ≡ s.total_devs)
  unfolding count_all categorize
  count_all-counts [] now ttl_secs s = (omega arith, refl)
  count_all-counts (e ∷ table) now ttl_secs s =
      ground (
        arith,
        count_all-counts table now ttl_secs (count_category (categorize e.1 now ttl_secs) s),
      )

  -- The categories of a snapshot add up to its developers: each is counted once.
  pub snapshot-counts :
      (table : List (ℕ × DevRecord F)) (now ttl_secs : ℕ)
      → let s = snapshot table now ttl_secs in
        s.a_plus + s.a + s.neutral + s.bad + s.stale ≡ s.total_devs
  unfolding snapshot
  snapshot-counts table now ttl_secs =
      let counted = count_all-counts table now ttl_secs (record {
        total_devs = length table;
        a_plus = 0;
        a = 0;
        neutral = 0;
        bad = 0;
        stale = 0;
      }) in
      omega (arith, counted)
