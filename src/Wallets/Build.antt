-- ===== src/Wallets/Build.antt =====
-- What a registry that is built holds.
use automatamain.Base.{
  ℕ, ◌≡◌, ◌⊎◌, inl, inr, refl, sym, ◌∙◌, ap, arith, Bool, true, false, Option, none, some, List, [],
  ◌∷◌, ◌++◌, map, if◌then◌else◌, ◌==◌, keep, Option-cases,
}
use automatamain.Base.Assoc.{or_default}
use automatamain.Base.Set.{member}
use automatamain.Wallets.{
  WalletEntryConfig, WalletHandle, WalletRegistry, ExecutionMode, demo, live, BuildResult, built,
  WalletError, rejected, Environment, find_wallet, is_known, open_live, start_wallet, add_wallet,
  handle_of, build_wallet, build_wallets, or_entries, build_wallet_registry,
}

-- No number stands in a list twice.
abbrev pub AllDifferent : List ℕ → Type 0
AllDifferent [] = Unit
AllDifferent (x ∷ xs) = (member x xs ≡ false) × AllDifferent xs

member-snoc :
    (a x : ℕ) (xs : List ℕ) → member a (xs ++ x ∷ []) ≡ (if x == a then true else member a xs)
member-snoc a x [] = ground arith
member-snoc a x (y ∷ ys) = ground (arith, member-snoc a x ys)

AllDifferent-snoc :
    (x : ℕ) (xs : List ℕ) → AllDifferent xs → member x xs ≡ false → AllDifferent (xs ++ x ∷ [])
AllDifferent-snoc x [] d h = (refl, tt)
AllDifferent-snoc x (y ∷ ys) d h =
    (ground (arith, d.0, h, member-snoc y x ys), AllDifferent-snoc x ys d.1 (ground (arith, h)))

append-empty : (xs : List ℕ) → xs ≡ xs ++ []
append-empty [] = refl
append-empty (x ∷ xs) = ap (λ l. x ∷ l) (append-empty xs)

append-append : (xs ys zs : List ℕ) → (xs ++ ys) ++ zs ≡ xs ++ (ys ++ zs)
append-append [] ys zs = refl
append-append (x ∷ xs) ys zs = ap (λ l. x ∷ l) (append-append xs ys zs)

AllDifferent-grown :
    (x : ℕ) (b : Bool) (xs : List ℕ)
    → AllDifferent xs
    → member x xs ≡ false
    → AllDifferent (xs ++ (if b then x ∷ [] else []))
AllDifferent-grown x true xs d h = AllDifferent-snoc x xs d h
AllDifferent-grown x false xs d h = rw (sym (append-empty xs)) d

module _ {F : Type 0} where
  BuildResult-cases :
      (r : BuildResult F)
      → ((reg : WalletRegistry F) × (r ≡ built reg)) ⊎ ((e : WalletError) × (r ≡ rejected e))
  BuildResult-cases (built reg) = inl (reg, refl)
  BuildResult-cases (rejected e) = inr (e, refl)

  abbrev pub ids : List (WalletHandle F) → List ℕ
  ids ws = map (λ w. w.id) ws

  known_iff :
      (id : ℕ) (ws : List (WalletHandle F)) → is_known (find_wallet id ws) ≡ member id (ids ws)
  known_iff id [] = refl
  known_iff id (w ∷ ws) = ground (arith, known_iff id ws)

  ids-snoc :
      (w : WalletHandle F) (ws : List (WalletHandle F)) → ids (ws ++ w ∷ []) ≡ ids ws ++ w.id ∷ []
  ids-snoc w [] = refl
  ids-snoc w (v ∷ vs) = ap (λ l. v.id ∷ l) (ids-snoc w vs)

module _ {F : Type 0} (env : Environment F) (mode : ExecutionMode) (start : F) where
  -- An entry that a build takes in: all but those that are disabled and without a key, where the mode
  -- is live.
  abbrev has_key : ExecutionMode → Bool → Option ℕ → Bool
  has_key demo enabled key = true
  has_key live enabled (some key) = true
  has_key live enabled none = enabled

  abbrev pub is_taken : WalletEntryConfig F → Bool
  is_taken e = has_key mode e.enabled (env.private_key e.private_key_env)

  abbrev pub taken_ids : List (WalletEntryConfig F) → List ℕ
  taken_ids es = map (λ e. e.id) (keep is_taken es)

  added_ids :
      (cfg : WalletEntryConfig F) (reg reg' : WalletRegistry F) (address : ℕ) (bal : F)
      → add_wallet env mode start cfg address bal reg ≡ built reg'
      → ids reg'.ordered ≡ ids reg.ordered ++ cfg.id ∷ []
  added_ids cfg reg reg' address bal h =
      ground (arith, h, ids-snoc (handle_of env mode start cfg address bal) reg.ordered)

  start_wallet-ids :
      (m : ExecutionMode) (cfg : WalletEntryConfig F) (reg reg' : WalletRegistry F) (key : Option ℕ)
      → start_wallet env mode start m cfg reg key ≡ built reg'
      → ids reg'.ordered
        ≡ ids reg.ordered ++ (if has_key m cfg.enabled key then cfg.id ∷ [] else [])
  unfolding open_live
  start_wallet-ids demo cfg reg reg' key h =
      added_ids cfg reg reg' (env.new_address cfg.id) (or_default start cfg.demo_balance_sol) h
  start_wallet-ids live cfg reg reg' (some key) h = elim (Option-cases (env.open_broker key)) [
    | inl closed ↦ ground (arith, h, closed)
    | inr ((address, bal), opened) ↦ added_ids cfg reg reg' address bal (ground (arith, h, opened))
  ]
  start_wallet-ids live cfg reg reg' none h = ground (arith, h, append-empty (ids reg.ordered))

  -- One round adds its id, if the entry is taken, and the id is new.
  build_wallet-ids :
      (cfg : WalletEntryConfig F) (reg reg' : WalletRegistry F)
      → build_wallet env mode start cfg reg ≡ built reg'
      → (member cfg.id (ids reg.ordered) ≡ false)
        × (ids reg'.ordered ≡ ids reg.ordered ++ (if is_taken cfg then cfg.id ∷ [] else []))
  unfolding build_wallet
  build_wallet-ids cfg reg reg' h = ground (
    arith,
    h,
    known_iff cfg.id reg.ordered,
    start_wallet-ids mode cfg reg reg' (env.private_key cfg.private_key_env),
  )

  taken_ids-cons :
      (e : WalletEntryConfig F) (es : List (WalletEntryConfig F))
      → (if is_taken e then e.id ∷ [] else []) ++ taken_ids es ≡ taken_ids (e ∷ es)
  taken_ids-cons e es = ground arith

  build_wallets-ids :
      (es : List (WalletEntryConfig F)) (reg reg' : WalletRegistry F)
      → AllDifferent (ids reg.ordered)
      → build_wallets env mode start es reg ≡ built reg'
      → (ids reg'.ordered ≡ ids reg.ordered ++ taken_ids es) × AllDifferent (ids reg'.ordered)
  unfolding build_wallets
  build_wallets-ids [] reg reg' d h = ground (arith, h, append-empty (ids reg.ordered))
  build_wallets-ids (e ∷ es) reg reg' d h =
      elim (BuildResult-cases (build_wallet env mode start e reg)) [
        | inl (reg₁, done) ↦
            let (fresh, grown) = build_wallet-ids e reg reg₁ done in
            let d₁ = AllDifferent-grown e.id (is_taken e) (ids reg.ordered) d fresh in
            let (later, d₂) =
              build_wallets-ids es reg₁ reg' (rw grown d₁) (ground (arith, h, done)) in
            (
              later
                  ∙ ap (λ l. l ++ taken_ids es) grown
                  ∙ append-append (ids reg.ordered) (if is_taken e then e.id ∷ [] else [])
                      (taken_ids es)
                  ∙ ap (λ l. ids reg.ordered ++ l) (taken_ids-cons e es),
              d₂,
            )
        | inr (err, stopped) ↦ absurd (ground (arith, h, stopped))
      ]

  -- A registry that is built has a wallet for each entry in its order, or for the one default entry,
  -- except those that are disabled and have no key in live mode; and their ids are all different.
  pub build_ids :
      (main : WalletEntryConfig F) (entries : List (WalletEntryConfig F)) (reg : WalletRegistry F)
      → build_wallet_registry env mode start main entries ≡ built reg
      → (ids reg.ordered ≡ taken_ids (or_entries main entries)) × AllDifferent (ids reg.ordered)
  unfolding build_wallet_registry
  build_ids main entries reg h =
      build_wallets-ids (or_entries main entries) (record { ordered = []; by_pubkey = [] }) reg tt h
