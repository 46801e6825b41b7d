-- ===== src/Wallets.antt =====
-- The wallets of the copy trade (src/autobuy/wallet_registry.rs): one handle for each, built from the
-- configuration. Ids, addresses and keys are numbers. `by_id` holds the handles of `ordered` under
-- their ids, so that a lookup in it is one in `ordered`.
pub mod Build
pub mod Patch
pub mod Tests
use automatamain.Base.{
  ℕ, Bool, true, false, not, Option, none, some, List, [], ◌∷◌, ◌++◌, if◌then◌else◌, ◌==◌, keep,
}
use automatamain.Base.Assoc.{insert, or_default}
use automatamain.Score.Types.{Tier, a_plus, a, b, skip}

pub record WalletTierSize (F : Type 0) : Type 0 where
  pub a_sol : F
  pub a_plus_sol : F
  pub b_sol : F

pub record WalletEntryConfig (F : Type 0) : Type 0 where
  pub id : ℕ
  pub enabled : Bool
  pub private_key_env : ℕ
  pub size_sol : Option F
  pub tier_size : Option (WalletTierSize F)
  pub demo_balance_sol : Option F
  pub rpc_url_env : Option ℕ

pub record WalletHandle (F : Type 0) : Type 0 where
  pub id : ℕ
  pub enabled : Bool
  pub size_sol : Option F
  pub tier_size : Option (WalletTierSize F)
  pub wallet_address : ℕ
  pub balance : F

-- `by_pubkey` leads from an address to the id of its handle.
pub record WalletRegistry (F : Type 0) : Type 0 where
  pub ordered : List (WalletHandle F)
  pub by_pubkey : List (ℕ × ℕ)

pub data ExecutionMode : Type 0 where
  demo live : ExecutionMode

-- The errors of `build_wallet_registry`, without their texts.
pub data WalletError : Type 0 where
  duplicate_id key_not_set rpc_not_set broker_failed : ℕ → WalletError

pub data BuildResult (F : Type 0) : Type 0 where
  built : WalletRegistry F → BuildResult F
  rejected : WalletError → BuildResult F

module _ {F : Type 0} where
  abbrev pub size_for_tier : WalletTierSize F → F → Tier → F
  size_for_tier ts signal_sol a_plus = ts.a_plus_sol
  size_for_tier ts signal_sol a = ts.a_sol
  size_for_tier ts signal_sol b = ts.b_sol
  size_for_tier ts signal_sol skip = signal_sol

  unfoldable pub amount_for_signal : WalletHandle F → F → Tier → F
  amount_for_signal w signal_sol buy_tier = elim w.tier_size [
    | some ts ↦ size_for_tier ts signal_sol buy_tier
    | none ↦ or_default signal_sol w.size_sol
  ]

  -- `by_id.get`.
  abbrev pub find_wallet : ℕ → List (WalletHandle F) → Option (WalletHandle F)
  find_wallet id [] = none
  find_wallet id (w ∷ ws) = let rest = find_wallet id ws in if w.id == id then some w else rest

  abbrev pub enabled_wallets : WalletRegistry F → List (WalletHandle F)
  enabled_wallets reg = keep (λ w. w.enabled) reg.ordered

  -- A change of the handle with an id: every map sees it.
  unfoldable pub change_wallet :
      ℕ → (WalletHandle F → WalletHandle F) → List (WalletHandle F) → List (WalletHandle F)
  change_wallet id f [] = []
  change_wallet id f (w ∷ ws) =
      let rest = change_wallet id f ws in (if w.id == id then f w else w) ∷ rest

  unfoldable pub set_balance_sol : ℕ → F → WalletRegistry F → WalletRegistry F
  set_balance_sol id bal reg = record reg {
    ordered = change_wallet id (λ w. record w { balance = bal }) reg.ordered;
  }

  abbrev pub patch_wallet : WalletEntryConfig F → WalletHandle F → WalletHandle F
  patch_wallet e w = record w {
    enabled = e.enabled;
    size_sol = e.size_sol;
    tier_size = e.tier_size;
  }

  unfoldable pub apply_config_patch :
      List (WalletEntryConfig F) → List (WalletHandle F) → List (WalletHandle F)
  apply_config_patch [] ws = ws
  apply_config_patch (e ∷ es) ws = apply_config_patch es (change_wallet e.id (patch_wallet e) ws)

  abbrev pub or_entries :
      WalletEntryConfig F → List (WalletEntryConfig F) → List (WalletEntryConfig F)
  or_entries main [] = main ∷ []
  or_entries main (e ∷ es) = e ∷ es

  abbrev pub is_known : Option (WalletHandle F) → Bool
  is_known none = false
  is_known (some w) = true

-- What the environment answers: the key that a variable holds, whether a variable with an RPC URL is
-- set (`none` asks for the default ones), and the address and balance that a broker opens with.
pub record Environment (F : Type 0) : Type 0 where
  pub private_key : ℕ → Option ℕ
  pub rpc_url : Option ℕ → Bool
  pub open_broker : ℕ → Option (ℕ × F)
  -- The address of the key pair that the demo mode makes for a wallet.
  pub new_address : ℕ → ℕ

module _ {F : Type 0} (env : Environment F) (mode : ExecutionMode)
    (default_start_balance_sol : F) where
  abbrev handle_of : WalletEntryConfig F → ℕ → F → WalletHandle F
  handle_of cfg address bal = record {
    id = cfg.id;
    enabled = cfg.enabled;
    size_sol = cfg.size_sol;
    tier_size = cfg.tier_size;
    wallet_address = address;
    balance = bal;
  }

  abbrev add_wallet : WalletEntryConfig F → ℕ → F → WalletRegistry F → BuildResult F
  add_wallet cfg address bal reg = built (record {
    ordered = reg.ordered ++ (handle_of cfg address bal ∷ []);
    by_pubkey = insert address cfg.id reg.by_pubkey;
  })

  -- The live branch with a key.
  unfoldable open_live : WalletEntryConfig F → ℕ → WalletRegistry F → BuildResult F
  open_live cfg key reg =
      if not (env.rpc_url cfg.rpc_url_env)
      then rejected (rpc_not_set cfg.id)
      else elim (env.open_broker key) [
        | none ↦ rejected (broker_failed cfg.id)
        | some (address, bal) ↦ add_wallet cfg address bal reg
      ]

  abbrev start_wallet :
      ExecutionMode → WalletEntryConfig F → WalletRegistry F → Option ℕ → BuildResult F
  start_wallet demo cfg reg key =
      add_wallet cfg (env.new_address cfg.id)
        (or_default default_start_balance_sol cfg.demo_balance_sol) reg
  start_wallet live cfg reg (some key) = open_live cfg key reg
  start_wallet live cfg reg none = if cfg.enabled then rejected (key_not_set cfg.id) else built reg

  -- One round of the loop.
  unfoldable build_wallet : WalletEntryConfig F → WalletRegistry F → BuildResult F
  build_wallet cfg reg =
      if is_known (find_wallet cfg.id reg.ordered)
      then rejected (duplicate_id cfg.id)
      else start_wallet mode cfg reg (env.private_key cfg.private_key_env)

  unfoldable build_wallets : List (WalletEntryConfig F) → WalletRegistry F → BuildResult F
  build_wallets [] reg = built reg
  build_wallets (cfg ∷ cfgs) reg = elim (build_wallet cfg reg) [
    | built reg' ↦ build_wallets cfgs reg'
    | rejected e ↦ rejected e
  ]

  -- `main` is the one entry of `default_wallet_entries`.
  unfoldable build_wallet_registry :
      WalletEntryConfig F → List (WalletEntryConfig F) → BuildResult F
  build_wallet_registry main entries =
      build_wallets (or_entries main entries) (record { ordered = []; by_pubkey = [] })
