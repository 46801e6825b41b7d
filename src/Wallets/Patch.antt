-- ===== src/Wallets/Patch.antt =====
-- What a patch of the configuration changes.
use automatamain.Base.{
  ℕ, ◌≡◌, inl, inr, refl, ◌∙◌, arith, Option, none, some, List, [], ◌∷◌, if◌then◌else◌, ◌==◌,
  Option-cases,
}
use automatamain.Wallets.{
  WalletEntryConfig, WalletHandle, find_wallet, change_wallet, patch_wallet, apply_config_patch,
}
use automatamain.Wallets.Build.{ids}

module _ {F : Type 0} where
  -- What a patch does to the wallet with an id: its entries one after the other.
  abbrev patched : ℕ → List (WalletEntryConfig F) → WalletHandle F → WalletHandle F
  patched id [] w = w
  patched id (e ∷ es) w = patched id es (if e.id == id then patch_wallet e w else w)

  abbrev pub map_some :
      (WalletHandle F → WalletHandle F) → Option (WalletHandle F) → Option (WalletHandle F)
  map_some f none = none
  map_some f (some w) = some (f w)

  find-change :
      (id k : ℕ) (e : WalletEntryConfig F) (ws : List (WalletHandle F))
      → find_wallet id (change_wallet k (patch_wallet e) ws)
        ≡ map_some (λ w. if k == id then patch_wallet e w else w) (find_wallet id ws)
  unfolding change_wallet
  find-change id k e [] = refl
  find-change id k e (w ∷ ws) = ground (arith, find-change id k e ws)

  find_patched :
      (id : ℕ) (es : List (WalletEntryConfig F)) (ws : List (WalletHandle F))
      → find_wallet id (apply_config_patch es ws) ≡ map_some (patched id es) (find_wallet id ws)
  unfolding apply_config_patch
  find_patched id [] ws = elim (Option-cases (find_wallet id ws)) [
    | inl missing ↦ ground (arith, missing)
    | inr (w, found) ↦ ground (arith, found)
  ]
  find_patched id (e ∷ es) ws = elim (Option-cases (find_wallet id ws)) [
    | inl missing ↦ ground (
      arith,
      missing,
      find-change id e.id e ws,
      find_patched id es (change_wallet e.id (patch_wallet e) ws),
    )
    | inr (w, found) ↦ ground (
      arith,
      found,
      find-change id e.id e ws,
      find_patched id es (change_wallet e.id (patch_wallet e) ws),
    )
  ]

  -- The last entry with an id.
  abbrev pub last_entry : ℕ → List (WalletEntryConfig F) → Option (WalletEntryConfig F)
  last_entry id [] = none
  last_entry id (e ∷ es) = elim (last_entry id es) [
    | some later ↦ some later
    | none ↦ if e.id == id then some e else none
  ]

  -- A wallet with the three settings of an entry, and its own id, address and balance.
  abbrev pub settled : Option (WalletEntryConfig F) → WalletHandle F → WalletHandle F
  settled none w = w
  settled (some e) w = record {
    id = w.id;
    enabled = e.enabled;
    size_sol = e.size_sol;
    tier_size = e.tier_size;
    wallet_address = w.wallet_address;
    balance = w.balance;
  }

  patched-settled :
      (id : ℕ) (es : List (WalletEntryConfig F)) (w : WalletHandle F)
      → patched id es w ≡ settled (last_entry id es) w
  patched-settled id [] w = refl
  patched-settled id (e ∷ es) w = elim (Option-cases (last_entry id es)) [
    | inl sole ↦
        ground (arith, sole, patched-settled id es w, patched-settled id es (patch_wallet e w))
    | inr (later, last) ↦
        ground (arith, last, patched-settled id es w, patched-settled id es (patch_wallet e w))
  ]

  ids-change :
      (k : ℕ) (e : WalletEntryConfig F) (ws : List (WalletHandle F))
      → ids (change_wallet k (patch_wallet e) ws) ≡ ids ws
  unfolding change_wallet
  ids-change k e [] = refl
  ids-change k e (w ∷ ws) = ground (arith, ids-change k e ws)

  ids-patched :
      (es : List (WalletEntryConfig F)) (ws : List (WalletHandle F))
      → ids (apply_config_patch es ws) ≡ ids ws
  unfolding apply_config_patch
  ids-patched [] ws = refl
  ids-patched (e ∷ es) ws =
      ids-patched es (change_wallet e.id (patch_wallet e) ws) ∙ ids-change e.id e ws

  -- A patch of the configuration leaves the wallets in their order. The wallet with an id has whether it
  -- is enabled, its size and the sizes of its tiers from the last entry with that id, and its id, its
  -- address and its balance as before; without such an entry it is as before; and the same ids are known.
  pub find-apply_config_patch :
      (id : ℕ) (es : List (WalletEntryConfig F)) (ws : List (WalletHandle F))
      → (ids (apply_config_patch es ws) ≡ ids ws)
        × (find_wallet id (apply_config_patch es ws)
            ≡ map_some (settled (last_entry id es)) (find_wallet id ws))
  find-apply_config_patch id es ws = (
    ids-patched es ws,
    elim (Option-cases (find_wallet id ws)) [
      | inl missing ↦ ground (arith, missing, find_patched id es ws)
      | inr (w, found) ↦ ground (arith, found, find_patched id es ws, patched-settled id es w)
    ],
  )
