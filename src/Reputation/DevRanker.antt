-- ===== src/Reputation/DevRanker.antt =====
-- The ranking of developers by the bot's own trades (src/scoring/dev_ranker.rs). A developer is a
-- number, and the reading of the clock is an argument. Counters are u64.
pub mod Counts
use automatamain.Base.{
  ℕ, suc, ◌+◌, ◌-◌, ◌%◌, ◌^◌, Bool, true, false, ◌&&◌, Option, none, some, List, [], ◌∷◌, ltb,
  if◌then◌else◌, length,
}
use automatamain.Base.Int.{neg}
use automatamain.Base.Float.{Float, int, neg_int}
use automatamain.Base.Assoc.{get?, feed}
use automatamain.Score.Types.{DevCategory}

pub record DevRecord (F : Type 0) : Type 0 where
  pub score : F
  pub total_tokens : ℕ
  pub strong_successes : ℕ
  pub successes : ℕ
  pub neutrals : ℕ
  pub rugs : ℕ
  pub last_seen_unix : ℕ

pub data TokenOutcome : Type 0 where
  strong_success success neutral_outcome rug : TokenOutcome

-- `Msg::UpdateOutcome`, with the time at which it is taken.
pub record OutcomeNote : Type 0 where
  pub dev : ℕ
  pub outcome : TokenOutcome
  pub now : ℕ

pub record DevRankerSnapshot : Type 0 where
  pub total_devs : ℕ
  pub a_plus : ℕ
  pub a : ℕ
  pub neutral : ℕ
  pub bad : ℕ
  pub stale : ℕ

-- `+= 1` on a u64.
abbrev pub bump : ℕ → ℕ
bump n = (n + 1) % 2 ^ 64

abbrev pub count_category : DevCategory → DevRankerSnapshot → DevRankerSnapshot
count_category DevCategory.dev_a_plus s = record s { a_plus = s.a_plus + 1 }
count_category DevCategory.dev_a s = record s { a = s.a + 1 }
count_category DevCategory.neutral s = record s { neutral = s.neutral + 1 }
count_category DevCategory.bad s = record s { bad = s.bad + 1 }
count_category DevCategory.stale s = record s { stale = s.stale + 1 }
count_category DevCategory.fresh s = s

module _ {F : Type 0} ⦃fl : Float F⦄ where
  open fl use {fle, fadd, fsub}

  unfoldable pub classify : F → TokenOutcome
  classify pnl_pct =
      if fle (int 50) pnl_pct
      then strong_success
      else if fle (int 30) pnl_pct
      then success
      else if fle pnl_pct (neg_int 16)
      then rug
      else neutral_outcome

  abbrev pub default_record : DevRecord F
  default_record = record {
    score = int 0;
    total_tokens = 0;
    strong_successes = 0;
    successes = 0;
    neutrals = 0;
    rugs = 0;
    last_seen_unix = 0;
  }

  abbrev pub note_kind : TokenOutcome → DevRecord F → DevRecord F
  note_kind strong_success r = record r {
    score = fadd r.score (int 2);
    strong_successes = bump r.strong_successes;
  }
  note_kind success r = record r { score = fadd r.score (int 1); successes = bump r.successes }
  note_kind neutral_outcome r = record r { neutrals = bump r.neutrals }
  note_kind rug r = record r { score = fsub r.score (int 2); rugs = bump r.rugs }

  unfoldable pub note_outcome : OutcomeNote → DevRecord F → DevRecord F
  note_outcome u r =
      let counted = record r { total_tokens = bump r.total_tokens } in
      record (note_kind u.outcome counted) { last_seen_unix = u.now }

  -- The task's table under the updates that it receives.
  abbrev pub note_outcomes : List OutcomeNote → List (ℕ × DevRecord F) → List (ℕ × DevRecord F)
  note_outcomes us table = feed default_record (λ u. u.dev) note_outcome us table

  unfoldable pub categorize : DevRecord F → ℕ → ℕ → DevCategory
  categorize r now ttl_secs =
      if ltb 0 ttl_secs && ltb ttl_secs (now - r.last_seen_unix)
      then DevCategory.stale
      else if fle (int 3) r.score
      then DevCategory.dev_a_plus
      else if fle (int 1) r.score
      then DevCategory.dev_a
      else if fle r.score (neg_int 2)
      then DevCategory.bad
      else DevCategory.neutral

  -- `Msg::GetCategory`.
  unfoldable pub category : List (ℕ × DevRecord F) → ℕ → ℕ → ℕ → DevCategory × DevRecord F
  category table dev now ttl_secs = elim (get? dev table) [
    | some r ↦ (categorize r now ttl_secs, r)
    | none ↦ (DevCategory.neutral, default_record)
  ]

  unfoldable pub count_all : List (ℕ × DevRecord F) → ℕ → ℕ → DevRankerSnapshot → DevRankerSnapshot
  count_all [] now ttl_secs s = s
  count_all (e ∷ table) now ttl_secs s =
      count_all table now ttl_secs (count_category (categorize e.1 now ttl_secs) s)

  -- `Msg::SnapshotCounts`.
  unfoldable pub snapshot : List (ℕ × DevRecord F) → ℕ → ℕ → DevRankerSnapshot
  snapshot table now ttl_secs =
      count_all table now ttl_secs
        (record { total_devs = length table; a_plus = 0; a = 0; neutral = 0; bad = 0; stale = 0 })
