-- ===== src/Store/Restored.antt =====
-- internal/store/store.go: transactions with Restore among them, and the snapshots that it can be given.
use makera_cnc_controller.Base.{ℕ, suc, ◌≤◌, List, [], ◌∷◌, All}
use makera_cnc_controller.Base.Text.{Text}
use makera_cnc_controller.Store.{Job}
use makera_cnc_controller.Store.Batch.{Batch}
use makera_cnc_controller.Store.Ops.{Op}
use makera_cnc_controller.Store.Commit.{Persisted, World}
use makera_cnc_controller.Store.Commit.Opening.{restore}
use makera_cnc_controller.Store.Invariant.{IsKeyed}
use makera_cnc_controller.Store.Transactions.{run_ops}

pub data Transaction : Type 0 where
  calls : List Op → Transaction
  restores : Persisted → Transaction

unfoldable pub run_transaction : World → Transaction → World
run_transaction w (calls ops) = (run_ops w ops).0
run_transaction w (restores p) = (restore w p).0

unfoldable pub run_all : World → List Transaction → World
unfolding run_transaction
run_all w [] = w
run_all w (t ∷ ts) = run_all (run_transaction w t) ts

-- Ids rise along a queue, from `lo` on.
abbrev pub Rises : ℕ → List Job → Type 0
Rises lo [] = Unit {0}
Rises lo (j ∷ js) = (lo ≤ j.id) × Rises (suc j.id) js

-- A snapshot whose entries stand under their paths and whose jobs are in order.
abbrev pub InOrder : Transaction → Type 0
InOrder (calls ops) = Unit {0}
InOrder (restores p) = All IsKeyed p.entries × Rises 1 p.jobs
