-- ===== src/Examples/Stores.antt =====
-- The theorems on the store, applied to the sample store.
use makera_cnc_controller.Base.{
  ℕ, Option, none, ◌==◌, ◌≡◌, ◌+◌, refl, some, List, [], ◌∷◌, Bool, false, not, inr, length, arith,
  is_some, if◌then◌else◌, ◌&&◌, All,
}
use makera_cnc_controller.Base.Text.{text_eq, trim_space}
use makera_cnc_controller.Store.{queued, running, flush_failed, Result, ok}
use makera_cnc_controller.Store.Batch.{Batch, find_job}
use makera_cnc_controller.Store.Jobs.{start_job, prune_failed_jobs, write_job, replace_job}
use makera_cnc_controller.Store.Commit.{Persisted, persist, Disk, World, flush_locked, batch}
use makera_cnc_controller.Store.Commit.Opening.{open_store, holds}
use makera_cnc_controller.Store.Ops.{Op, puts_entry, starts_job, prunes_done, enqueues, apply}
use makera_cnc_controller.Store.Invariant.{WellFormed}
use makera_cnc_controller.Store.Restored.{Transaction, calls, restores}
use makera_cnc_controller.Store.Transactions.{flush_atomic, run_ops}
use makera_cnc_controller.Store.Durability.{
  batch_rollback, run_ops-Saved, open_store-persist, Saved,
}
use makera_cnc_controller.Store.Lifecycle.{running_kept}
use makera_cnc_controller.Store.Transitions.{◌⟶◌, apply_moves}
use makera_cnc_controller.Store.Pruning.{newest_failed, prune_failed_jobs-newest}
use makera_cnc_controller.Examples.{
  plate_entry, delete_job, running_job, sample_store, sample_disk, sample_world, no_rename,
  sample_batch,
}

abbrev failing_world : World
failing_world = record sample_world { ios = no_rename ∷ [] }

-- A batch that starts the delete.
abbrev start_delete : Batch → Batch × Result Bool
start_delete b = let (b', j, started) = start_job b 1 in (b', ok started)

batch_rollback_example :
    ((batch failing_world start_delete).0.store ≡ sample_store)
    × ((batch failing_world start_delete).0.disk.file ≡ some (persist sample_store))
unfolding batch start_job flush_locked find_job write_job text_eq
batch_rollback_example = batch_rollback failing_world start_delete flush_failed refl

pub sample-WellFormed : WellFormed sample_store
unfolding trim_space text_eq
sample-WellFormed = record {
  catalog = ((refl, λ h. ground arith), ((refl, λ h. (refl, refl)), tt));
  ids = (omega arith, (omega arith, (omega arith, omega arith)));
  tidy = refl;
}

flush_atomic_example :
    let r = flush_locked no_rename sample_store sample_disk in
    let replaced = r.flushed && not (text_eq sample_store.path []) in
    All (λ (x : Disk). x.file ≡ sample_disk.file) r.seen
    × (r.disk.file ≡ (if replaced then some (persist sample_store) else sample_disk.file))
    × (replaced && is_some r.disk.tmp ≡ false)
flush_atomic_example = flush_atomic no_rename sample_store sample_disk

abbrev sample_ops : List Op
sample_ops = puts_entry plate_entry ∷ starts_job 1 ∷ enqueues delete_job ∷ []

-- A transaction, and a restoration of what was there.
abbrev transactions : List Transaction
transactions = calls sample_ops ∷ restores (persist sample_store) ∷ []

run_ops-Saved_example : Saved (run_ops failing_world sample_ops).0
run_ops-Saved_example = run_ops-Saved failing_world sample_ops (inr refl)

-- The one document that the file can hold.
abbrev decode_sample : List ℕ → Option Persisted
decode_sample bytes = if length bytes == 1 then some (persist sample_store) else none

open_store-persist_example :
    open_store decode_sample sample_store.path (holds (1 ∷ [])) ≡ some sample_store
open_store-persist_example =
    open_store-persist decode_sample (1 ∷ []) sample_store refl sample-WellFormed

running_kept_example :
    find_job 3 (apply (prunes_done 50) sample_batch).store.jobs ≡ some running_job
unfolding find_job
running_kept_example = running_kept (prunes_done 50) sample_batch 3 running_job refl refl refl

apply_moves_example : queued ⟶ running
unfolding find_job apply start_job write_job replace_job
apply_moves_example =
    apply_moves (starts_job 1) sample_batch 1 delete_job
      (record delete_job { state = running; updated_at = 100 }) sample-WellFormed refl refl refl

prune_failed_jobs-newest_example :
    ((prune_failed_jobs sample_batch 0).0.store.jobs ≡ newest_failed 0 sample_store.jobs)
    × (length (newest_failed 0 sample_store.jobs) + (prune_failed_jobs sample_batch 0).1 ≡ 3)
prune_failed_jobs-newest_example = prune_failed_jobs-newest sample_batch 0
