-- ===== src/Latency/Reports.antt =====
-- When a trace is logged, and how often.
use automatamain.Base.{
  ℕ, ◌+◌, ◌≤◌, ◌≡◌, refl, arith, Option, none, some, List, [], ◌∷◌, if◌then◌else◌, ◌==◌,
  Option-cases, inl, inr,
}
use automatamain.Base.Assoc.{get?, insert, get?-insert, upsert}
use automatamain.Latency.{
  Trace, Registry, Report, note_done, note_sent, change_trace, log_of, forget, on_created,
  on_score_done, on_gate, on_sent, mark_wallet_done,
}

-- What the buy path tells the registry.
pub data Event : Type 0 where
  created score_done gate : (mint : ℕ) → Event
  sent done : (mint wallet_id : ℕ) → Event

abbrev pub on_event : ℕ → Event → Registry → Registry × Option Report
on_event now (created mint) g = (on_created now mint g, none)
on_event now (score_done mint) g = (on_score_done now mint g, none)
on_event now (gate mint) g = (on_gate now mint g, none)
on_event now (sent mint wallet_id) g = (on_sent now mint wallet_id g, none)
on_event now (done mint wallet_id) g = mark_wallet_done now mint wallet_id g

abbrev count_report : ℕ → Option Report → ℕ
count_report mint none = 0
count_report mint (some r) = if r.mint == mint then 1 else 0

-- How often a mint is logged over timed events.
abbrev pub reports_of : ℕ → List (ℕ × Event) → Registry → ℕ
reports_of mint [] g = 0
reports_of mint ((now, e) ∷ rest) g =
    count_report mint (on_event now e g).1 + reports_of mint rest (on_event now e g).0

-- How often a mint is created.
abbrev creates : ℕ → Event → ℕ
creates mint (created a) = if a == mint then 1 else 0
creates mint _ = 0

abbrev pub creations_of : ℕ → List (ℕ × Event) → ℕ
creations_of mint [] = 0
creations_of mint ((now, e) ∷ rest) = creates mint e + creations_of mint rest

abbrev pub traced : ℕ → Registry → ℕ
traced mint g = elim (get? mint g) [ none ↦ 0 | some t ↦ 1 ]

get?-forget :
    (mint a : ℕ) (g : Registry) → get? a (forget mint g) ≡ (if mint == a then none else get? a g)
unfolding get?
get?-forget mint a [] = ground arith
get?-forget mint a ((k, t) ∷ g) = ground (arith, get?-forget mint a g)

done_once :
    (now a wallet_id mint : ℕ) (g : Registry)
    → count_report mint (mark_wallet_done now a wallet_id g).1
        + traced mint (mark_wallet_done now a wallet_id g).0
      ≤ traced mint g
unfolding mark_wallet_done
done_once now a wallet_id mint g = elim (Option-cases (get? a g)) [
  | inl absent ↦ ground (arith, absent)
  | inr (t, found) ↦
      let marked = note_done now wallet_id t in
      ground (arith, found, get?-insert a mint marked g, get?-forget a mint (insert a marked g))
]

created_once :
    (now a mint : ℕ) (g : Registry)
    → traced mint (on_created now a g) ≤ traced mint g + (if a == mint then 1 else 0)
unfolding on_created
created_once now a mint g = elim (Option-cases (get? a g)) [
  | inl absent ↦
      let fresh : Trace = record { created = now; score_done = none; gate = none; wallets = [] } in
      ground (arith, absent, get?-insert a mint fresh g)
  | inr (t, found) ↦ ground (arith, found)
]

change-traced :
    (a mint : ℕ) (f : Trace → Trace) (g : Registry)
    → traced mint (change_trace a f g) ≡ traced mint g
change-traced a mint f g = elim (Option-cases (get? a g)) [
  | inl absent ↦ ground (arith, absent)
  | inr (t, found) ↦ ground (arith, found, get?-insert a mint (f t) g)
]

event_once :
    (now mint : ℕ) (e : Event) (g : Registry)
    → count_report mint (on_event now e g).1 + traced mint (on_event now e g).0
      ≤ traced mint g + creates mint e
unfolding on_score_done on_gate on_sent
event_once now mint (created a) g = ground (arith, created_once now a mint g)
event_once now mint (score_done a) g =
    ground (arith, change-traced a mint (λ t. record t { score_done = some now }) g)
event_once now mint (gate a) g =
    ground (arith, change-traced a mint (λ t. record t { gate = some now }) g)
event_once now mint (sent a wallet_id) g =
    ground (arith, change-traced a mint (note_sent now wallet_id) g)
event_once now mint (done a wallet_id) g = ground (arith, done_once now a wallet_id mint g)

-- Over any events a mint is logged at most as often as it is created, and once more if it is traced at
-- the start.
reports_le_creations :
    (mint : ℕ) (events : List (ℕ × Event)) (g : Registry)
    → reports_of mint events g ≤ traced mint g + creations_of mint events
reports_le_creations mint [] g = omega arith
reports_le_creations mint ((now, e) ∷ rest) g =
    ground (arith, event_once now mint e g, reports_le_creations mint rest (on_event now e g).0)

first_sent :
    (now mint wallet_id : ℕ) (g : Registry) (t : Trace)
    → get? mint g ≡ some t
    → t.wallets ≡ []
    → get? mint (on_sent now mint wallet_id g)
      ≡ some (record t { wallets = (wallet_id, record { sent = some now; confirmed = none }) ∷ [] })
unfolding on_sent upsert insert get?
first_sent now mint wallet_id g t found no_wallets =
    ground (arith, found, no_wallets, get?-insert mint mint (note_sent now wallet_id t) g)

first_done :
    (now sent_at mint wallet_id : ℕ) (g : Registry) (t : Trace)
    → get? mint g ≡ some t
    → t.wallets ≡ (wallet_id, record { sent = some sent_at; confirmed = none }) ∷ []
    → ((mark_wallet_done now mint wallet_id g).1
        ≡ some (
            log_of mint (record t {
              wallets = (wallet_id, record { sent = some sent_at; confirmed = some now }) ∷ [];
            })))
      × (get? mint (mark_wallet_done now mint wallet_id g).0 ≡ none)
unfolding mark_wallet_done upsert insert get?
first_done now sent_at mint wallet_id g t found wallets =
    ground
      (arith, found, wallets, get?-forget mint mint (insert mint (note_done now wallet_id t) g))

-- Where a traced mint has no wallet yet, and the buy of its first wallet is done before another is sent,
-- the log is of this wallet alone; and whatever else is told of the mint, none of it is logged before the
-- mint is created again.
pub later_wallets_lost :
    (sent_at done_at mint wallet_id : ℕ) (later : List (ℕ × Event)) (g : Registry) (t : Trace)
    → get? mint g ≡ some t
    → t.wallets ≡ []
    → creations_of mint later ≡ 0
    → ((mark_wallet_done done_at mint wallet_id (on_sent sent_at mint wallet_id g)).1
        ≡ some (
            log_of mint (record t {
              wallets = (wallet_id, record { sent = some sent_at; confirmed = some done_at }) ∷ [];
            })))
      × (reports_of mint later
            (mark_wallet_done done_at mint wallet_id (on_sent sent_at mint wallet_id g)).0
          ≡ 0)
later_wallets_lost sent_at done_at mint wallet_id later g t found no_wallets no_creation =
    let sent_first = first_sent sent_at mint wallet_id g t found no_wallets in
    let (logged, gone) =
      first_done done_at sent_at mint wallet_id (on_sent sent_at mint wallet_id g) _ sent_first
        refl in
    (
      logged,
      ground (
        arith,
        gone,
        no_creation,
        reports_le_creations mint later
            (mark_wallet_done done_at mint wallet_id (on_sent sent_at mint wallet_id g)).0,
      ),
    )
