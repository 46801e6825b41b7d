-- ===== src/Watchlist/Invariant.antt =====
-- What holds of the watchlist under any interleaving.
use automatamain.Base.{
  ℕ, ◌+◌, ◌%◌, ◌^◌, ◌≤◌, ◌≡◌, refl, ap, arith, List, [], ◌∷◌, ◌++◌, length, not, ◌==◌, keep,
  if◌then◌else◌, length-append, length-keep-append, false,
}
use automatamain.Watchlist.{FreshWatchlistConfig, has, try_add, note_running, release, note_stopped}
use automatamain.Watchlist.System.{
  System, idle, Step, refuse, admit, start, free, stop, Reach, here, next,
}

-- How often a mint stands in a list.
abbrev pub copies : List ℕ → ℕ → ℕ
copies mints mint = length (keep (λ m. m == mint) mints)

copies-middle :
    (a m : ℕ) (xs ys : List ℕ)
    → copies (xs ++ m ∷ ys) a ≡ (if m == a then 1 else 0) + copies (xs ++ ys) a
copies-middle a m xs ys =
    ground
      (arith, length-keep-append (λ x. x == a) xs (m ∷ ys), length-keep-append (λ x. x == a) xs ys)

pub length-middle : (m : ℕ) (xs ys : List ℕ) → length (xs ++ m ∷ ys) ≡ 1 + length (xs ++ ys)
length-middle m xs ys = omega (arith, length-append xs (m ∷ ys), length-append xs ys)

copies-not_has : (a : ℕ) (xs : List ℕ) → has a xs ≡ false → copies xs a ≡ 0
copies-not_has a [] h = refl
copies-not_has a (x ∷ xs) h = ground (arith, h, copies-not_has a xs)

abbrev without : ℕ → List ℕ → List ℕ
without a xs = keep (λ x. not (x == a)) xs

length-without : (a : ℕ) (xs : List ℕ) → length (without a xs) + copies xs a ≡ length xs
length-without a [] = refl
length-without a (x ∷ xs) = ground (arith, length-without a xs)

copies-without :
    (a b : ℕ) (xs : List ℕ) → copies (without a xs) b ≡ (if a == b then 0 else copies xs b)
copies-without a b [] = ground arith
copies-without a b (x ∷ xs) = ground (arith, copies-without a b xs)

-- A mint is in the set exactly when one task is between its admission and its release; the set is as
-- large as these tasks are many; and the counter counts the tasks that poll or stop, in 64 bits.
pub record IsValid (s : System) : Type 0 where
  pub once : (a : ℕ) → copies s.list.active a ≤ 1
  pub owned : (a : ℕ) → copies s.list.active a ≡ copies s.admitting a + copies s.watching a
  pub sized : length s.list.active ≡ length s.admitting + length s.watching
  pub counted : s.list.running ≡ (length s.watching + s.stopping) % 2 ^ 64

Step-IsValid : {cfg : FreshWatchlistConfig} {s t : System} → Step cfg s t → IsValid s → IsValid t
unfolding try_add note_running release note_stopped
Step-IsValid (refuse s mint e h) v = v
Step-IsValid {cfg} (admit s mint w h) v = record {
  once = λ a. ground (arith, h, v.once a, copies-not_has mint s.list.active);
  owned = λ a. ground (arith, h, v.owned a);
  sized = ground (arith, h, v.sized);
  counted = ground (arith, h, v.counted);
}
Step-IsValid (start s xs ys mint h) v = record {
  once = λ a. v.once a;
  owned = λ a. grind (arith, v.owned a, ap (λ l. copies l a) h, copies-middle a mint xs ys);
  sized = omega (arith, v.sized, ap length h, length-middle mint xs ys);
  counted = omega (arith, v.counted);
}
Step-IsValid (free s xs ys mint h) v = record {
  once = λ a. ground (arith, v.once a, copies-without mint a s.list.active);
  owned = λ a. ground (
    arith,
    v.once a,
    v.owned a,
    copies-without mint a s.list.active,
    ap (λ l. copies l a) h,
    copies-middle a mint xs ys,
  );
  sized = ground (
    arith,
    v.once mint,
    v.owned mint,
    v.sized,
    length-without mint s.list.active,
    ap (λ l. copies l mint) h,
    copies-middle mint mint xs ys,
    ap length h,
    length-middle mint xs ys,
  );
  counted = omega (arith, v.counted, ap length h, length-middle mint xs ys);
}
Step-IsValid (stop s n h) v = record {
  once = λ a. v.once a;
  owned = λ a. v.owned a;
  sized = v.sized;
  counted = ground (arith, h, v.counted);
}

-- From an empty watchlist, under any interleaving of callers and polling tasks: no mint is admitted
-- while it is being admitted or polled; the set holds exactly the mints of those tasks, and is as
-- large as they are many; and the counter counts the tasks that poll or stop, modulo 2 ^ 64.
pub Reach-IsValid : {cfg : FreshWatchlistConfig} {s : System} → Reach cfg idle s → IsValid s
Reach-IsValid here = record {
  once = λ a. omega arith;
  owned = λ a. refl;
  sized = refl;
  counted = refl;
}
Reach-IsValid (next r st) = Step-IsValid st (Reach-IsValid r)
