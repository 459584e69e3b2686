-- ===== src/Engine/Execute.antt =====
-- internal/synceng/engine.go: `execute`, the operation of one job with its writes to the catalog.
-- The removal of a cache file and the best-effort md5sum after an upload write nothing to the store.
use makera_cnc_controller.Base.{
  Bool, true, false, not, ◌&&◌, ◌||◌, Option, none, some, List, [], ◌∷◌, ◌==◌, if◌then◌else◌,
}
use makera_cnc_controller.Base.Text.{Text, text_eq}
use makera_cnc_controller.Store.{
  SyncState, synced, pending_upload, uploading, pending_delete, deleting, pending_rename,
  remote_only, blank, sync_eq, Entry, JobKind, job_upload, job_delete, job_rename, job_mkdir,
  job_other, kind_eq, Job, Result, ok, err,
}
use makera_cnc_controller.Store.Batch.{
  Batch, get_entry, put_entry, set_entry_sync_if_match, set_entry_sync_if, delete_entry,
  delete_entry_if_sync,
}
use makera_cnc_controller.Store.Ops.{Op}
use makera_cnc_controller.Store.Commit.{World}
use makera_cnc_controller.Store.Commit.Opening.{save}
use makera_cnc_controller.Store.Transactions.{run_ops}
use makera_cnc_controller.Engine.{
  Fault, machine_fault, bad_path, bad_destination, bad_cache_path, unknown_kind, store_fault,
  completed,
}

-- The writes of others while the machine works.
abbrev pub others : World → List Op → World
others w ops = (run_ops w ops).0

abbrev pub rename_entry_matches_job : Entry → Job → Bool
rename_entry_matches_job entry job =
    if not (sync_eq entry.sync pending_rename)
    then false
    else if not (text_eq job.cache_path []) && not (text_eq entry.cache_path job.cache_path)
    then false
    else if not (text_eq job.md5 []) && not (text_eq entry.md5 job.md5)
    then false
    else job.size == 0 || entry.size == job.size

unfoldable pub has_local_intent : SyncState → Bool
has_local_intent synced = false
has_local_intent remote_only = false
has_local_intent blank = false
has_local_intent _ = true

-- The test of setUploadJobSync and of the upload case of setFailedEntrySync.
unfoldable pub upload_entry_matches : Job → SyncState → Entry → Bool
upload_entry_matches job state entry =
    if entry.is_dir
    then false
    else if not (text_eq entry.cache_path job.cache_path)
        || not (text_eq entry.md5 job.md5)
        || not (entry.size == job.size)
    then false
    else sync_eq entry.sync pending_upload
      || sync_eq entry.sync uploading
      || sync_eq entry.sync state

unfoldable pub set_upload_job_sync : World → Job → SyncState → Text → World × Result (Option Entry)
set_upload_job_sync w job state msg =
    save w (λ b. set_entry_sync_if_match b job.path state msg (upload_entry_matches job state))

-- A failed write once the machine has done its part.
abbrev pub finish {ℓ} : {A : Type ℓ} → World × Result A → World × Option Fault
finish (w, ok a) = (w, none)
finish (w, err e) = (w, some (completed (store_fault e)))

unfoldable pub execute_mkdir : World → Job → List Op → Option Text → World × Option Fault
execute_mkdir w job ops (some t) = (others w ops, some (machine_fault t))
execute_mkdir w job ops none = finish (
    save (others w ops) (λ b.
      set_entry_sync_if_match b job.path synced []
        (λ e. e.is_dir && sync_eq e.sync pending_upload)))

abbrev pub deleting_states : List SyncState
deleting_states = pending_delete ∷ deleting ∷ []

unfoldable pub removed_by_machine : World → Job → List Op → Option Text → World × Option Fault
removed_by_machine w job ops (some t) = (others w ops, some (machine_fault t))
removed_by_machine w job ops none =
    finish (save (others w ops) (λ b. delete_entry_if_sync b job.path deleting_states))

unfoldable pub execute_delete : World → Job → List Op → Option Text → World × Option Fault
unfolding removed_by_machine
execute_delete w job ops outcome =
    let (w', r) = save w (λ b. set_entry_sync_if b job.path deleting [] deleting_states) in
    let after = removed_by_machine w' job ops outcome in
    elim r [ err e ↦ (w', some (store_fault e)) | ok _ ↦ after ]

-- The batch of a rename: the entry moves, unless the destination has changes of its own.
unfoldable pub move_entry : Job → Batch → Batch
move_entry job b = elim (get_entry b job.path) [
  | none ↦ b
  | some entry ↦
      let moved : Entry = record entry { path = job.dest_path; sync = synced; error_text = [] } in
      let claimed : Bool = elim (get_entry b job.dest_path) [
        | none ↦ false
        | some dest ↦ has_local_intent dest.sync
      ] in
      if not (rename_entry_matches_job entry job)
      then b
      else if claimed
      then (delete_entry b job.path).0
      else (delete_entry (put_entry b moved).0 job.path).0
]

unfoldable pub execute_rename : World → Job → List Op → Option Text → World × Option Fault
unfolding move_entry
execute_rename w job ops (some t) = (others w ops, some (machine_fault t))
execute_rename w job ops none = finish (save (others w ops) (λ b. (move_entry job b, tt)))

unfoldable pub uploaded : World → Job → List Op → Option Text → World × Option Fault
uploaded w job ops (some t) = (others w ops, some (machine_fault t))
uploaded w job ops none = finish (set_upload_job_sync (others w ops) job synced [])

module _ (is_gcode : Text → Bool) (in_cache : Text → Bool) where
  -- doUpload refuses a cache path outside the cache directory before it opens the file.
  unfoldable pub execute_upload : World → Job → List Op → Option Text → World × Option Fault
  unfolding set_upload_job_sync uploaded
  execute_upload w job ops outcome =
      let (w', r) = set_upload_job_sync w job uploading [] in
      let after = uploaded w' job ops outcome in
      elim r [
        | err e ↦ (w', some (store_fault e))
        | ok none ↦ (w', none)
        | ok (some _) ↦ if not (in_cache job.cache_path) then (w', some bad_cache_path) else after
      ]

  unfoldable pub execute_kind : JobKind → World → Job → List Op → Option Text → World × Option Fault
  unfolding execute_mkdir execute_delete execute_rename execute_upload
  execute_kind job_mkdir w job ops outcome = execute_mkdir w job ops outcome
  execute_kind job_delete w job ops outcome = execute_delete w job ops outcome
  execute_kind job_rename w job ops outcome = execute_rename w job ops outcome
  execute_kind job_upload w job ops outcome = execute_upload w job ops outcome
  execute_kind job_other w job ops outcome = (w, some unknown_kind)

  unfoldable pub execute : World → Job → List Op → Option Text → World × Option Fault
  unfolding execute_kind
  execute w job ops outcome =
      if not (is_gcode job.path)
      then (w, some (bad_path job.path))
      else if kind_eq job.kind job_rename && not (is_gcode job.dest_path)
      then (w, some (bad_destination job.dest_path))
      else execute_kind job.kind w job ops outcome
