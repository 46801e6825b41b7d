-- ===== src/Exit/Tape/Valid.antt =====
-- What the tape promises: the value of an exit comes from valid ticks, and the tape keeps a bound.
use automatamain.Base.{
  ℕ, zero, suc, ◌+◌, ◌-◌, ◌/◌, ◌≤◌, ◌<◌, ◌≡◌, arith, Bool, true, false, Option, none, some, List,
  [], ◌∷◌, ◌++◌, if◌then◌else◌, refl, All, length, keep, get_elem?, length-drop, length-append,
}
use automatamain.Base.Float.{Float, fmax, int, flt}
use automatamain.Exit.Types.{Position}
use automatamain.Exit.Tape.{
  exit_mcap_valid, exit_mcap_median, filtered_exit_mcap, push_exit_mcap_tick, sort, insert_sorted,
  last_valid, first_of_three, exit_mcap_matches_band,
}

no_lt_zero : (i : ℕ) → i < 0 → ⊥
no_lt_zero i h = omega arith

half_lt : (n : ℕ) → 0 < n → n / 2 < n
half_lt n h = omega arith

module _ {F : Type 0} ⦃fl : Float F⦄ where
  abbrev pub IsValid : F → Type 0
  IsValid x = exit_mcap_valid x ≡ true

  All-if :
      (b : Bool) (xs ys : List F)
      → (b ≡ true → All IsValid xs)
      → (b ≡ false → All IsValid ys)
      → All IsValid (if b then xs else ys)
  All-if true xs ys h k = h refl
  All-if false xs ys h k = k refl

  insert-All : (x : F) (xs : List F) → IsValid x → All IsValid xs → All IsValid (insert_sorted x xs)
  unfolding insert_sorted
  insert-All x [] h hs = (h, tt)
  insert-All x (y ∷ ys) h (hy, hys) =
      All-if (flt y x) _ _ (λ e. (hy, insert-All x ys h hys)) (λ e. (h, (hy, hys)))

  insert-length : (x : F) (xs : List F) → length (insert_sorted x xs) ≡ 1 + length xs
  unfolding insert_sorted
  insert-length x [] = omega arith
  insert-length x (y ∷ ys) = ground (arith, insert-length x ys)

  sort-All : (xs : List F) → All IsValid xs → All IsValid (sort xs)
  unfolding sort
  sort-All [] h = tt
  sort-All (x ∷ xs) (h, hs) = insert-All x (sort xs) h (sort-All xs hs)

  sort-length : (xs : List F) → length (sort xs) ≡ length xs
  unfolding sort
  sort-length [] = refl
  sort-length (x ∷ xs) = omega (arith, insert-length x (sort xs), sort-length xs)

  keep-All : (xs : List F) → All IsValid (keep exit_mcap_valid xs)
  keep-All [] = tt
  keep-All (x ∷ xs) = All-if (exit_mcap_valid x) _ _ (λ e. (e, keep-All xs)) (λ e. keep-All xs)

  All-get :
      (xs : List F) (i : ℕ)
      → All IsValid xs
      → i < length xs
      → (x : F) × (get_elem? xs i ≡ some x) × IsValid x
  All-get [] i hs h = elim (no_lt_zero i h) [ ]
  All-get (x ∷ xs) zero (hx, hs) h = (x, refl, hx)
  All-get (x ∷ xs) (suc i) (hx, hs) h = All-get xs i hs (omega arith)

  -- The median of a tape with a valid tick is there, and is valid.
  median-IsValid :
      (xs : List F)
      → 0 < length (keep exit_mcap_valid xs)
      → (m : F) × (exit_mcap_median xs ≡ some m) × IsValid m
  unfolding exit_mcap_median
  median-IsValid xs h =
      let v = keep exit_mcap_valid xs in
      All-get (sort v) (length v / 2) (sort-All v (keep-All xs))
        (omega (arith, sort-length v, half_lt (length v) h))

  -- The value of an option, if it is there, is valid.
  IsValidOption : Option F → Type 0
  IsValidOption none = Unit
  IsValidOption (some x) = IsValid x

  get-IsValidOption : (xs : List F) (i : ℕ) → All IsValid xs → IsValidOption (get_elem? xs i)
  unfolding IsValidOption
  get-IsValidOption [] i h = tt
  get-IsValidOption (x ∷ xs) zero (h, hs) = h
  get-IsValidOption (x ∷ xs) (suc i) (h, hs) = get-IsValidOption xs i hs

  median-IsValidOption : (xs : List F) → IsValidOption (exit_mcap_median xs)
  unfolding exit_mcap_median
  median-IsValidOption xs =
      let v = keep exit_mcap_valid xs in
      get-IsValidOption (sort v) (length v / 2) (sort-All v (keep-All xs))

  first-IsValid :
      (a : Option F) (m : F) (c : Option F) (d : F)
      → IsValidOption a
      → IsValid m
      → IsValid (first_of_three a (some m) c d)
  unfolding first_of_three IsValidOption
  first-IsValid none m c d h hm = hm
  first-IsValid (some x) m c d h hm = h

  -- Whatever the band, the value that an exit goes by is a valid one as soon as the tape has a valid
  -- tick.
  pub filtered_exit_mcap-IsValid :
      (xs : List F) (enter lo hi : F)
      → 0 < length (keep exit_mcap_valid xs)
      → IsValid (filtered_exit_mcap xs enter lo hi)
  unfolding filtered_exit_mcap
  filtered_exit_mcap-IsValid xs enter lo hi h =
      let (m, e, valid) = median-IsValid xs h in
      let in_band = keep (λ x. exit_mcap_matches_band x (some m) lo hi) xs in
      rw e (
        first-IsValid (exit_mcap_median in_band) m (last_valid xs) (fmax enter (int 0))
          (median-IsValidOption in_band) valid)

  -- A tape within its bound stays within it.
  push-length :
      (p : Position F) (x : F) (n : ℕ)
      → length p.exit_mcap_ticks ≤ n
      → length (push_exit_mcap_tick p x n).exit_mcap_ticks ≤ n
  unfolding push_exit_mcap_tick
  push-length p x n h = ground (
    arith,
    length-append p.exit_mcap_ticks (x ∷ []),
    length-drop (length (p.exit_mcap_ticks ++ x ∷ []) - n) (p.exit_mcap_ticks ++ x ∷ []),
  )
