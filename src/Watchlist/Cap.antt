-- ===== src/Watchlist/Cap.antt =====
-- The bound on the tasks that poll at once: kept while calls do not overlap, and only then.
use automatamain.Base.{
  ℕ, zero, suc, ◌+◌, ◌-◌, ◌^◌, ◌≤◌, ◌<◌, ◌≡◌, refl, ap, arith, true, false, List, [], ◌∷◌, length,
}
use automatamain.Watchlist.{FreshWatchlistConfig, has, try_add, note_running, release, note_stopped}
use automatamain.Watchlist.System.{System, idle, Step, refuse, admit, start, free, stop}
use automatamain.Watchlist.Invariant.{length-middle}

-- A call of `try_add` begins only when no other is between its lock and its count.
abbrev IsSerial : {cfg : FreshWatchlistConfig} {s t : System} → Step cfg s t → Type 0
IsSerial (refuse s mint e h) = Unit
IsSerial (admit s mint w h) = s.admitting ≡ []
IsSerial (start s xs ys mint h) = Unit
IsSerial (free s xs ys mint h) = Unit
IsSerial (stop s n h) = Unit

pub data SerialReach (cfg : FreshWatchlistConfig) (s : System) : System → Type 0 where
  serial_here : SerialReach cfg s s
  serial_next :
      {t u : System} → SerialReach cfg s t → (st : Step cfg t u) → IsSerial st → SerialReach cfg s u

abbrev pub KeepsCap : FreshWatchlistConfig → System → Type 0
KeepsCap cfg s = s.list.running + length s.admitting ≤ cfg.max_concurrent

-- The tasks themselves are within the configured number, and the counter has not wrapped.
record IsCapped (cfg : FreshWatchlistConfig) (s : System) : Type 0 where
  tasks : length s.watching + s.stopping + length s.admitting ≤ cfg.max_concurrent
  counted : s.list.running ≡ length s.watching + s.stopping

Step-IsCapped :
    {cfg : FreshWatchlistConfig} {s t : System} (st : Step cfg s t)
    → cfg.max_concurrent < 2 ^ 64
    → IsSerial st
    → IsCapped cfg s
    → IsCapped cfg t
unfolding try_add note_running release note_stopped
Step-IsCapped (refuse s mint e h) usize serial k = k
Step-IsCapped (admit s mint w h) usize serial k = record {
  tasks = ground (arith, h, k.tasks, k.counted, ap length serial);
  counted = ground (arith, h, k.counted);
}
Step-IsCapped (start s xs ys mint h) usize serial k = record {
  tasks = omega (arith, k.tasks, ap length h, length-middle mint xs ys);
  counted = omega (arith, usize, k.tasks, k.counted, ap length h, length-middle mint xs ys);
}
Step-IsCapped (free s xs ys mint h) usize serial k = record {
  tasks = omega (arith, k.tasks, ap length h, length-middle mint xs ys);
  counted = omega (arith, k.counted, ap length h, length-middle mint xs ys);
}
Step-IsCapped (stop s n h) usize serial k = record {
  tasks = omega (arith, k.tasks, h);
  counted = omega (arith, usize, k.tasks, k.counted, h);
}

SerialReach-IsCapped :
    {cfg : FreshWatchlistConfig} {s : System}
    → cfg.max_concurrent < 2 ^ 64
    → SerialReach cfg idle s
    → IsCapped cfg s
SerialReach-IsCapped usize serial_here = record { tasks = omega arith; counted = refl }
SerialReach-IsCapped usize (serial_next r st serial) =
    Step-IsCapped st usize serial (SerialReach-IsCapped usize r)

-- From an empty watchlist, where no call of `try_add` begins between the lock and the count of
-- another, the counter with the admissions that it does not count yet stays within the configured
-- number, of 64 bits, however the polling tasks interleave.
pub SerialReach-KeepsCap :
    {cfg : FreshWatchlistConfig} {s : System}
    → cfg.max_concurrent < 2 ^ 64
    → SerialReach cfg idle s
    → KeepsCap cfg s
SerialReach-KeepsCap usize r =
    let capped = SerialReach-IsCapped usize r in omega (arith, capped.tasks, capped.counted)

mints : ℕ → List ℕ
mints zero = []
mints (suc n) = n ∷ mints n

fresh_mint : (n m : ℕ) → n ≤ m → has m (mints n) ≡ false
unfolding mints
fresh_mint zero m h = refl
fresh_mint (suc n) m h = ground (arith, h, fresh_mint n m)

-- At most one other call of `try_add` is between its lock and its count when one begins.
abbrev IsPaired : {cfg : FreshWatchlistConfig} {s t : System} → Step cfg s t → Type 0
IsPaired (refuse s mint e h) = Unit
IsPaired (admit s mint w h) = length s.admitting ≤ 1
IsPaired (start s xs ys mint h) = Unit
IsPaired (free s xs ys mint h) = Unit
IsPaired (stop s n h) = Unit

pub data PairedReach (cfg : FreshWatchlistConfig) (s : System) : System → Type 0 where
  paired_here : PairedReach cfg s s
  paired_next :
      {t u : System} → PairedReach cfg s t → (st : Step cfg t u) → IsPaired st → PairedReach cfg s u

-- The counter is n, the mints below k are taken, and those of a list are between lock and count.
record IsFilled (cfg : FreshWatchlistConfig) (n k : ℕ) (waiting : List ℕ) : Type 0 where
  state : System
  reached : PairedReach cfg idle state
  counted : state.list.running ≡ n
  taken : state.list.active ≡ mints k
  between : state.admitting ≡ waiting

module _ (cfg : FreshWatchlistConfig) (on : cfg.enabled ≡ true) where
  admit_next :
      (n k : ℕ) (waiting : List ℕ)
      → n < cfg.max_concurrent
      → length waiting ≤ 1
      → IsFilled cfg n k waiting
      → IsFilled cfg n (suc k) (k ∷ waiting)
  unfolding try_add mints
  admit_next n k waiting room few f =
      let w = record f.state.list { active = k ∷ f.state.list.active } in
      let fresh = fresh_mint k k (omega arith) in
      record {
        state = record f.state { list = w; admitting = k ∷ f.state.admitting };
        reached =
            paired_next f.reached
              (admit f.state k w (ground (arith, on, room, f.counted, ap (has k) f.taken, fresh)))
              (rw f.between few);
        counted = f.counted;
        taken = ap (λ l. k ∷ l) f.taken;
        between = ap (λ l. k ∷ l) f.between;
      }

  start_first :
      (n k m : ℕ) (waiting : List ℕ)
      → suc n < 2 ^ 64
      → IsFilled cfg n k (m ∷ waiting)
      → IsFilled cfg (suc n) k waiting
  unfolding note_running
  start_first n k m waiting usize f = record {
    state = record f.state {
      list = note_running f.state.list;
      admitting = waiting;
      watching = m ∷ f.state.watching;
    };
    reached = paired_next f.reached (start f.state [] waiting m f.between) tt;
    counted = ground (arith, usize, f.counted);
    taken = f.taken;
    between = refl;
  }

  -- One call after the other.
  fill : (n : ℕ) → n ≤ cfg.max_concurrent → cfg.max_concurrent < 2 ^ 64 → IsFilled cfg n n []
  unfolding mints
  fill zero room usize = record {
    state = idle;
    reached = paired_here;
    counted = refl;
    taken = refl;
    between = refl;
  }
  fill (suc n) room usize =
      start_first n (suc n) n [] (omega (arith, room, usize))
        (admit_next n n [] (omega (arith, room)) (omega arith) (fill n (omega (arith, room)) usize))

  -- Where no more than two calls of `try_add` are ever between the lock and the count at a time, the
  -- watchlist is on, and the configured number is positive and below 2 ^ 64 - 1, the counter can still
  -- reach one more than that number.
  pub cap_overrun :
      0 < cfg.max_concurrent
      → suc cfg.max_concurrent < 2 ^ 64
      → (s : System) × PairedReach cfg idle s × (s.list.running ≡ suc cfg.max_concurrent)
  cap_overrun room usize =
      let n = cfg.max_concurrent - 1 in
      let filled = fill n (omega arith) (omega (arith, usize)) in
      let one = admit_next n n [] (omega (arith, room)) (omega arith) filled in
      let two = admit_next n (suc n) (n ∷ []) (omega (arith, room)) (omega arith) one in
      let started = start_first n (suc (suc n)) (suc n) (n ∷ []) (omega (arith, usize)) two in
      let ran = start_first (suc n) (suc (suc n)) n [] (omega (arith, room, usize)) started in
      (ran.state, ran.reached, omega (arith, ran.counted, room))
