-- ===== src/Reputation/Quarantine/Expiry.antt =====
-- The cache against its specification: the last expiry that was set for each mint.
use automatamain.Base.{
  ℕ, ◌≤◌, ◌≡◌, refl, arith, Option, none, some, List, [], ◌∷◌, ltb, ◌==◌, if◌then◌else◌,
}
use automatamain.Base.Assoc.{get?, insert, get?-insert}
use automatamain.Reputation.Quarantine.{
  CurveQuarantineCache, expires_after, is_active, quarantine, prune,
}

pub data QuarantineOp : Type 0 where
  insert_op : (mint expires_at : ℕ) → QuarantineOp
  prune_op : (now_secs : ℕ) → QuarantineOp

pub run_op : CurveQuarantineCache → QuarantineOp → CurveQuarantineCache
run_op cache (insert_op mint expires_at) = quarantine cache mint expires_at
run_op cache (prune_op now_secs) = prune cache now_secs

pub run_ops : CurveQuarantineCache → List QuarantineOp → CurveQuarantineCache
run_ops cache [] = cache
run_ops cache (op ∷ ops) = run_ops (run_op cache op) ops

-- The last expiry that was set for a mint; pruning does not count.
abbrev pub last_expiry : ℕ → Option ℕ → List QuarantineOp → Option ℕ
last_expiry mint o [] = o
last_expiry mint o (insert_op m e ∷ ops) = last_expiry mint (if m == mint then some e else o) ops
last_expiry mint o (prune_op now ∷ ops) = last_expiry mint o ops

-- No pruning was done for a time after `now`.
abbrev pub PrunedBy : ℕ → List QuarantineOp → Type 0
PrunedBy now [] = Unit
PrunedBy now (insert_op m e ∷ ops) = PrunedBy now ops
PrunedBy now (prune_op t ∷ ops) = (t ≤ now) × PrunedBy now ops

-- Keys differ, so that pruning a later entry does not bring back an earlier one.
abbrev pub Fresh : ℕ → CurveQuarantineCache → Type 0
Fresh k m = get? k m ≡ none

abbrev pub HasKeys : CurveQuarantineCache → Type 0
HasKeys [] = Unit
HasKeys (e ∷ m) = Fresh e.0 m × HasKeys m

get?-prune :
    (mint t : ℕ) (cache : CurveQuarantineCache)
    → HasKeys cache
    → get? mint (prune cache t)
      ≡ elim (get? mint cache) [ some e ↦ if ltb t e then some e else none | none ↦ none ]
unfolding get? prune
get?-prune mint t [] keys = refl
get?-prune mint t (e ∷ m) keys = ground (arith, keys, get?-prune mint t m)

insert-HasKeys : (k w : ℕ) (m : CurveQuarantineCache) → HasKeys m → HasKeys (insert k w m)
unfolding get? insert
insert-HasKeys k w [] keys = (refl, tt)
insert-HasKeys k w (e ∷ m) keys = ground (arith, keys, insert-HasKeys k w m, get?-insert k e.0 w m)

prune-HasKeys : (t : ℕ) (m : CurveQuarantineCache) → HasKeys m → HasKeys (prune m t)
unfolding prune
prune-HasKeys t [] keys = tt
prune-HasKeys t (e ∷ m) keys = ground (arith, keys, prune-HasKeys t m, get?-prune e.0 t m)

-- A cache and an expiry that agree on a mint from a time on.
abbrev Agrees : ℕ → ℕ → CurveQuarantineCache → Option ℕ → Type 0
Agrees mint now cache o = expires_after now (get? mint cache) ≡ expires_after now o

run_ops-Agrees :
    (ops : List QuarantineOp) (cache : CurveQuarantineCache) (mint now : ℕ) (o : Option ℕ)
    → HasKeys cache
    → PrunedBy now ops
    → Agrees mint now cache o
    → Agrees mint now (run_ops cache ops) (last_expiry mint o ops)
unfolding run_ops run_op quarantine
run_ops-Agrees [] cache mint now o keys pruned h = h
run_ops-Agrees (insert_op m e ∷ ops) cache mint now o keys pruned h =
    run_ops-Agrees ops (insert m e cache) mint now (if m == mint then some e else o)
      (insert-HasKeys m e cache keys) pruned (ground (arith, h, get?-insert m mint e cache))
run_ops-Agrees (prune_op t ∷ ops) cache mint now o keys pruned h =
    run_ops-Agrees ops (prune cache t) mint now o (prune-HasKeys t cache keys) pruned.1
      (ground (arith, h, pruned.0, get?-prune mint t cache keys))

-- After any insertions and prunings of an empty cache, none of them for a time after `now`, a mint
-- is quarantined at `now` exactly when the last expiry that was set for it lies after `now`: pruning
-- shows nowhere.
pub is_active-last_expiry :
    (ops : List QuarantineOp) (mint now : ℕ)
    → PrunedBy now ops
    → is_active (run_ops [] ops) mint now ≡ expires_after now (last_expiry mint none ops)
unfolding is_active get?
is_active-last_expiry ops mint now pruned = run_ops-Agrees ops [] mint now none tt pruned refl
