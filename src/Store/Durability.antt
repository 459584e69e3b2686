-- ===== src/Store/Durability.antt =====
-- The file and the memory: what a transaction leaves in each, and what a restart reads back.
use makera_cnc_controller.Base.{
  ℕ, suc, Option, ◌≤◌, ◌≡◌, refl, ◌∙◌, ◌⊎◌, inl, inr, Bool-cases, true, false, some, List, [], ◌∷◌,
  arith, All,
}
use makera_cnc_controller.Base.Text.{Text, text_eq}
use makera_cnc_controller.Store.{Entry, Job, Store, StoreError, Result, err}
use makera_cnc_controller.Store.Batch.{
  Batch, normalize_loaded_entry, put_entry, set_entry_sync_if_match, set_entry_sync,
  set_entry_sync_if, delete_entry, delete_entry_if_sync, discard_entry, discard_jobs,
  supersede_queued_uploads,
}
use makera_cnc_controller.Store.Jobs.{
  enqueue, update_job, start_job, retry_job, prune_done_jobs, prune_failed_jobs,
  set_active_gcode_path,
}
use makera_cnc_controller.Store.Ops.{Op, discards_jobs, apply, apply_all}
use makera_cnc_controller.Store.Commit.{Persisted, persist, World, new_batch, batch, next_io}
use makera_cnc_controller.Store.Commit.Opening.{open_store, holds, normalize_loaded}
use makera_cnc_controller.Store.Invariant.{WellFormed, EntryOk, Chain}
use makera_cnc_controller.Store.Transactions.{
  run_ops, flush_branches, apply_all-Clean, persist-publish_all, publish_all-eq,
}

-- Whatever function a batch is given: where the batch returns an error, the function's own or a failed
-- flush, the memory and the file are as they were.
pub batch_rollback :
    {A : Type 0} (w : World) (fn : Batch → Batch × Result A) (e : StoreError)
    → (batch w fn).1 ≡ err e
    → ((batch w fn).0.store ≡ w.store) × ((batch w fn).0.disk.file ≡ w.disk.file)
unfolding batch
batch_rollback w fn e h =
    ground (arith, flush_branches (next_io w.ios) (fn (new_batch w)).0.store w.disk)

-- A persistent store's file holds what is in memory.
abbrev pub Saved : World → Type 0
Saved w = (text_eq w.store.path [] ≡ true) ⊎ (w.disk.file ≡ some (persist w.store))

apply-path : (op : Op) (b : Batch) → (apply op b).store.path ≡ b.store.path
unfolding apply put_entry set_entry_sync set_entry_sync_if set_entry_sync_if_match delete_entry
    delete_entry_if_sync discard_entry discard_jobs supersede_queued_uploads enqueue update_job
    start_job retry_job prune_done_jobs prune_failed_jobs set_active_gcode_path
apply-path (discards_jobs p kinds) b = refl
apply-path _ b = ground arith

apply_all-path : (ops : List Op) (b : Batch) → (apply_all ops b).store.path ≡ b.store.path
unfolding apply_all
apply_all-path [] b = refl
apply_all-path (op ∷ ops) b = apply_all-path ops (apply op b) ∙ apply-path op b

run_ops-keeps_file :
    (w : World) (ops : List Op)
    → (text_eq w.store.path [] ≡ false → w.disk.file ≡ some (persist w.store))
    → let v = (run_ops w ops).0 in
      text_eq v.store.path [] ≡ false → v.disk.file ≡ some (persist v.store)
unfolding run_ops batch
run_ops-keeps_file w ops h =
    let b : Batch = apply_all ops (new_batch w) in
    ground (
      arith,
      flush_branches (next_io w.ios) b.store w.disk,
      apply_all-Clean ops (new_batch w) w.store (λ _. refl),
      apply_all-path ops (new_batch w),
      persist-publish_all b.store b.events,
      publish_all-eq b.store b.events,
    )

-- After any transaction, committed or not, the file of a store that has a path still holds what is in
-- memory, if it did before.
pub run_ops-Saved : (w : World) (ops : List Op) → Saved w → Saved (run_ops w ops).0
run_ops-Saved w ops h = elim (Bool-cases (text_eq (run_ops w ops).0.store.path [])) [
  | inl e ↦ inl e
  | inr e ↦ inr (run_ops-keeps_file w ops (λ q. elim h [ inl x ↦ ground arith | inr x ↦ x ]) e)
]

normalize_loaded_same : (m : List (Text × Entry)) → All EntryOk m → normalize_loaded m ≡ m
unfolding normalize_loaded normalize_loaded_entry
normalize_loaded_same [] a = refl
normalize_loaded_same ((k, e) ∷ m) a = ground (arith, normalize_loaded_same m a.1)

pub Chain-next : (lo next : ℕ) (js : List Job) → Chain lo js next → lo ≤ next
Chain-next lo next [] c = c
Chain-next lo next (j ∷ js) c = omega (arith, Chain-next (suc j.id) next js c.1)

-- A restart on a file from which json.Unmarshal gets the document of a well-formed store, as it does from its encoding
-- where every text is valid UTF-8, reads back the catalog, the queue, the next id and the selected path; the
-- subscribers are gone.
pub open_store-persist :
    (decode : List ℕ → Option Persisted) (bytes : List ℕ) (s : Store)
    → decode bytes ≡ some (persist s)
    → WellFormed s
    → open_store decode s.path (holds bytes) ≡ some (record s { subs = []; next_sub = 0 })
unfolding open_store persist
open_store-persist decode bytes s read v =
    ground
      (arith, read, normalize_loaded_same s.entries v.catalog, Chain-next 1 s.next_job s.jobs v.ids)
