-- ===== src/Exit/Tick/Rule.antt =====
-- The shape of a rule of the tick.
use automatamain.Base.{Option, none, some}
use automatamain.Exit.Types.{Position, Action}

-- A rule changes the position, and may queue a sale.
abbrev pub Rule : Type 0 → Type 0
Rule F = Position F → Position F × Option (Action F)

-- The next rule is asked unless a sale is queued.
abbrev pub or_next :
    {F : Type 0} → Position F × Option (Action F) → Rule F → Position F × Option (Action F)
or_next (p, some a) s = (p, some a)
or_next (p, none) s = s p
