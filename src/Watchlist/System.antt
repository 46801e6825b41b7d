-- ===== src/Watchlist/System.antt =====
-- Tasks that share the watchlist: callers of `try_add`, which raise the counter after the lock, and
-- polling tasks, which free the mint under the lock and lower the counter after it.
use automatamain.Base.{ℕ, suc, ◌≡◌, List, [], ◌∷◌, ◌++◌}
use automatamain.Watchlist.{
  FreshWatchlistConfig, FreshWatchlistManager, TryAddError, refused, admitted, empty_watchlist,
  try_add, note_running, release, note_stopped,
}

-- The mints that are admitted but not counted yet, those that are polled, and the number of tasks
-- that have freed their mint but are still counted.
pub record System : Type 0 where
  pub list : FreshWatchlistManager
  pub admitting : List ℕ
  pub watching : List ℕ
  pub stopping : ℕ

abbrev pub idle : System
idle = record { list = empty_watchlist; admitting = []; watching = []; stopping = 0 }

pub data Step (cfg : FreshWatchlistConfig) : System → System → Type 0 where
  refuse :
      (s : System) (mint : ℕ) (e : TryAddError) → try_add cfg s.list mint ≡ refused e → Step cfg s s
  admit :
      (s : System) (mint : ℕ) (w : FreshWatchlistManager)
      → try_add cfg s.list mint ≡ admitted w
      → Step cfg s (record s { list = w; admitting = mint ∷ s.admitting })
  start :
      (s : System) (xs ys : List ℕ) (mint : ℕ)
      → s.admitting ≡ xs ++ mint ∷ ys
      → Step cfg s (record s {
        list = note_running s.list;
        admitting = xs ++ ys;
        watching = mint ∷ s.watching;
      })
  free :
      (s : System) (xs ys : List ℕ) (mint : ℕ)
      → s.watching ≡ xs ++ mint ∷ ys
      → Step cfg s
          (record s { list = release s.list mint; watching = xs ++ ys; stopping = suc s.stopping })
  stop :
      (s : System) (n : ℕ)
      → s.stopping ≡ suc n
      → Step cfg s (record s { list = note_stopped s.list; stopping = n })

pub data Reach (cfg : FreshWatchlistConfig) (s : System) : System → Type 0 where
  here : Reach cfg s s
  next : {t u : System} → Reach cfg s t → Step cfg t u → Reach cfg s u
