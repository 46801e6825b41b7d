-- ===== src/Manager/System/Occupied.antt =====
-- How many mints are open or pending after a message.
use automatamain.Base.{
  ℕ, ◌+◌, ◌≤◌, ◌≡◌, inl, inr, refl, arith, Bool, true, false, Option, List, [], ◌∷◌, ◌++◌,
  if◌then◌else◌, ◌==◌, Option-cases, Bool-cases,
}
use automatamain.Base.Float.{Float}
use automatamain.Base.Set.{any, member, distinct, distinct_mono, any-middle}
use automatamain.Strategy.Gate.{can_open_iff}
use automatamain.Strategy.Config.{roll-cfg}
use automatamain.Manager.{
  ManagerConfig, Manager, OpenPosition, BuySignal, Clock, of_mint, mints_of, unique_open_mints,
}
use automatamain.Manager.Buys.{Buy, BuyResult, initiate_buy}
use automatamain.Manager.Buys.Result.{apply_buy_result}
use automatamain.Manager.Buys.Gate.{IsFree, started_iff, with_fanout}
use automatamain.Manager.System.{System}
use automatamain.Manager.System.SameMarks.{refused-mints, result-mints}
use automatamain.Manager.System.Shut.{IsShut, refused-IsShut, result-IsShut}
use automatamain.Manager.System.Limit.{limit}

more_by_one : (ps mints : List ℕ) (a : ℕ) → distinct (ps ++ a ∷ mints) ≤ 1 + distinct (ps ++ mints)
more_by_one ps mints a = ground (
  arith,
  distinct_mono (ps ++ a ∷ mints) (a ∷ ps ++ mints)
      (λ b e. ground (arith, e, any-middle (λ x. x == b) ps a mints)),
)

module _ {F : Type 0} where
  -- The mint is open or pending.
  abbrev pub occupied : ℕ → Manager F → Bool
  occupied a m = if any (of_mint a) m.positions then true else member a m.pending_mints

  member-occupied :
      (a : ℕ) (ps : List (OpenPosition F)) (mints : List ℕ)
      → member a (mints_of ps ++ mints) ≡ (if any (of_mint a) ps then true else member a mints)
  member-occupied a [] mints = refl
  member-occupied a (p ∷ ps) mints = ground (arith, member-occupied a ps mints)

  -- Where every mint that is occupied afterwards was so before, no more are.
  no_more :
      (m n : Manager F)
      → ((a : ℕ) → occupied a n ≡ true → occupied a m ≡ true)
      → unique_open_mints n ≤ unique_open_mints m
  unfolding unique_open_mints
  no_more m n h =
      distinct_mono (mints_of n.positions ++ n.pending_mints)
        (mints_of m.positions ++ m.pending_mints)
        (λ a e. ground (
          arith,
          e,
          h a,
          member-occupied a n.positions n.pending_mints,
          member-occupied a m.positions m.pending_mints,
        ))

  from_shut :
      (m n : Manager F) (a : ℕ)
      → (IsShut false a m → IsShut false a n)
      → (member a n.pending_mints ≡ true → member a m.pending_mints ≡ true)
      → occupied a n ≡ true
      → occupied a m ≡ true
  from_shut m n a shut mints h = elim (Bool-cases (any (of_mint a) m.positions)) [
    | inl open_before ↦ ground (arith, open_before)
    | inr none_before ↦
        let none_after =
          (shut (record { closed = inl refl; no_position = none_before })).no_position in
        ground (arith, h, none_before, none_after, mints)
  ]

  pub keeps_occupied :
      (s : System F) (n : Manager F)
      → ((a : ℕ) → IsShut false a s.manager → IsShut false a n)
      → ((a : ℕ) → member a n.pending_mints ≡ true → member a s.manager.pending_mints ≡ true)
      → unique_open_mints n ≤ unique_open_mints s.manager
  keeps_occupied s n shut mints =
      no_more s.manager n (λ a. from_shut s.manager n a (shut a) (mints a))

module _ {F : Type 0} ⦃fl : Float F⦄ where
  -- The signal that starts a fan-out found room, and takes one place.
  started-limit :
      (cfg : ManagerConfig F) (clock : Clock) (signal : BuySignal F) (m : Manager F)
      → IsFree cfg clock signal m
      → unique_open_mints (with_fanout clock signal m) ≤ limit m
  unfolding unique_open_mints
  started-limit cfg clock signal m free =
      let open_gate =
        (can_open_iff m.strategy clock.first clock.second (unique_open_mints m)).0 free.gate_open in
      ground (
        arith,
        open_gate.room,
        roll-cfg m.strategy clock.first,
        more_by_one (mints_of m.positions) m.pending_mints signal.mint,
      )

  pub signalled-limit :
      (cfg : ManagerConfig F) (clock : Clock) (signal : BuySignal F) (s : System F)
      → unique_open_mints s.manager ≤ limit s.manager
      → unique_open_mints (initiate_buy cfg clock signal s.manager).0 ≤ limit s.manager
  signalled-limit cfg clock signal s h =
      elim (Option-cases (initiate_buy cfg clock signal s.manager).1) [
        | inl turned_down ↦
            let fewer =
              keeps_occupied s (initiate_buy cfg clock signal s.manager).0
                (λ a. refused-IsShut a cfg clock signal s.manager)
                (λ a e. rw (refused-mints cfg clock signal s.manager a turned_down) at e) in
            omega (arith, fewer, h)
        | inr (f, fanned_out) ↦
            let iff = started_iff cfg clock signal s.manager in
            let free : IsFree cfg clock signal s.manager = iff.0.0 (rw fanned_out (λ e. cc)) in
            rw (iff.1 free) (started-limit cfg clock signal s.manager free)
      ]

  -- A bought mint that is still pending or open takes no new place.
  pub timely-limit :
      (native : F → F) (cfg : ManagerConfig F) (clock : Clock) (buy : Buy F) (result : BuyResult F)
      (got balance : Option F) (m : Manager F)
      → occupied buy.signal.mint m ≡ true
      → unique_open_mints (apply_buy_result native cfg clock buy result got balance m)
        ≤ unique_open_mints m
  timely-limit native cfg clock buy result got balance m timely =
      no_more m (apply_buy_result native cfg clock buy result got balance m) (λ a e.
        elim (Bool-cases (buy.signal.mint == a)) [
          | inl same ↦ ground (arith, same, timely)
          | inr other ↦
              from_shut m (apply_buy_result native cfg clock buy result got balance m) a
                (result-IsShut a native cfg clock buy result got balance m other)
                (λ h. rw (result-mints native cfg clock buy result got balance m) at h) e
        ])
