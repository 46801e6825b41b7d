-- ===== src/Wallets/Tests.antt =====
-- Two wallets, of which one has no key.
use automatamain.Base.{◌≡◌, true, false, none, some, List, [], ◌∷◌, refl, if◌then◌else◌, ◌==◌}
use automatamain.Base.Assoc.{insert}
use automatamain.Base.Float.{Fixed}
use automatamain.Score.Examples.{whole}
use automatamain.Wallets.{
  WalletEntryConfig, WalletRegistry, Environment, live, built, build_wallet_registry, build_wallets,
  build_wallet, open_live, or_entries, find_wallet, apply_config_patch,
}
use automatamain.Wallets.Build.{ids, taken_ids, AllDifferent, build_ids}
use automatamain.Wallets.Patch.{settled, last_entry, map_some, find-apply_config_patch}

abbrev pub main_wallet : WalletEntryConfig Fixed
main_wallet = record {
  id = 1;
  enabled = true;
  private_key_env = 10;
  size_sol = none;
  tier_size = none;
  demo_balance_sol = none;
  rpc_url_env = none;
}

abbrev pub copy_wallet : WalletEntryConfig Fixed
copy_wallet = record main_wallet {
  id = 2;
  enabled = false;
  private_key_env = 20;
  size_sol = some (whole 1);
}

abbrev world : Environment Fixed
world = record {
  private_key = λ env. if env == 10 then some 77 else none;
  rpc_url = λ env. true;
  open_broker = λ key. some (key, whole 5);
  new_address = λ id. id;
}

abbrev entries : List (WalletEntryConfig Fixed)
entries = main_wallet ∷ copy_wallet ∷ []

abbrev registry : WalletRegistry Fixed
registry = record {
  ordered =
      record {
        id = 1;
        enabled = true;
        size_sol = none;
        tier_size = none;
        wallet_address = 77;
        balance = whole 5;
      }
      ∷ [];
  by_pubkey = (77, 1) ∷ [];
}

builds : build_wallet_registry world live (whole 3) main_wallet entries ≡ built registry
unfolding build_wallet_registry build_wallets build_wallet open_live insert
builds = refl

build_ids_example :
    (ids registry.ordered ≡ taken_ids world live (whole 3) (or_entries main_wallet entries))
    × AllDifferent (ids registry.ordered)
build_ids_example = build_ids world live (whole 3) main_wallet entries registry builds

find-apply_config_patch_example :
    (ids (apply_config_patch entries registry.ordered) ≡ ids registry.ordered)
    × (find_wallet 1 (apply_config_patch entries registry.ordered)
        ≡ map_some (settled (last_entry 1 entries)) (find_wallet 1 registry.ordered))
find-apply_config_patch_example = find-apply_config_patch 1 entries registry.ordered
