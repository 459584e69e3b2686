-- ===== src/Engine/Settling.antt =====
-- An attempt settles its job: while the flushes succeed, none is left running.
use makera_cnc_controller.Base.{
  ℕ, ◌≡◌, refl, Bool, false, Option, none, some, List, [], ◌∷◌, arith, All,
}
use makera_cnc_controller.Base.Text.{Text}
use makera_cnc_controller.Store.{
  SyncState, synced, uploading, deleting, Entry, JobKind, job_upload, job_delete, job_rename,
  job_mkdir, job_other, running, Job, Result, ok, err,
}
use makera_cnc_controller.Store.Batch.{
  Batch, get_entry, find_job, put_entry, set_entry_sync_if_match, set_entry_sync_if, delete_entry,
  delete_entry_if_sync,
}
use makera_cnc_controller.Store.Ops.{Op, apply, apply_all}
use makera_cnc_controller.Store.Commit.{World, new_batch, batch, flush_locked}
use makera_cnc_controller.Store.Commit.Opening.{save}
use makera_cnc_controller.Store.Transactions.{run_ops, publish_all-eq}
use makera_cnc_controller.Store.Lifecycle.{is_update, running_kept}
use makera_cnc_controller.Engine.Execute.{
  finish, removed_by_machine, uploaded, execute_kind, others, execute, execute_mkdir,
  execute_delete, execute_rename, execute_upload, set_upload_job_sync, move_entry, deleting_states,
}

-- The queue shows `j` under the id, and every flush to come succeeds.
abbrev pub Shows : ℕ → Job → World → Type 0
Shows i j w = (find_job i w.store.jobs ≡ some j) × (w.ios ≡ [])

-- A batch that shows `j` and returns no error leaves a store that does.
pub batch-Shows :
    {A : Type 0} (i : ℕ) (j : Job) (w : World) (f : Batch → Batch × Result A) (a : A)
    → w.ios ≡ []
    → (f (new_batch w)).1 ≡ ok a
    → find_job i (f (new_batch w)).0.store.jobs ≡ some j
    → Shows i j (batch w f).0 × ((batch w f).1 ≡ ok a)
unfolding batch flush_locked
batch-Shows i j w f a e r h =
    ground (arith, publish_all-eq (f (new_batch w)).0.store (f (new_batch w)).0.events)

pub save-Shows :
    {A : Type 0} (i : ℕ) (j : Job) (w : World) (f : Batch → Batch × A)
    → w.ios ≡ []
    → find_job i (f (new_batch w)).0.store.jobs ≡ some j
    → Shows i j (save w f).0 × ((save w f).1 ≡ ok (f (new_batch w)).1)
unfolding save
save-Shows i j w f e h =
    batch-Shows i j w (λ b. let (b', a) = f b in (b', ok a)) (f (new_batch w)).1 e refl h

-- The calls that others make on the store; UpdateJob is the sync engine's own.
abbrev pub IsForeign : List Op → Type 0
IsForeign ops = All (λ op. is_update op ≡ false) ops

apply_all-kept :
    (ops : List Op) (b : Batch) (i : ℕ) (j : Job)
    → IsForeign ops
    → find_job i b.store.jobs ≡ some j
    → j.state ≡ running
    → find_job i (apply_all ops b).store.jobs ≡ some j
unfolding apply_all
apply_all-kept [] b i j h f r = f
apply_all-kept (op ∷ ops) b i j h f r =
    apply_all-kept ops (apply op b) i j h.1 (running_kept op b i j h.0 f r) r

others-Shows :
    (w : World) (ops : List Op) (i : ℕ) (j : Job)
    → IsForeign ops
    → j.state ≡ running
    → Shows i j w
    → Shows i j (others w ops)
unfolding run_ops
others-Shows w ops i j h r s =
    (batch-Shows i j w (λ b. (apply_all ops b, ok tt)) tt s.1 refl
      (apply_all-kept ops (new_batch w) i j h s.0 r)).0

pub set_sync_if_match-jobs :
    (b : Batch) (p : Text) (st : SyncState) (msg : Text) (match : Entry → Bool)
    → (set_entry_sync_if_match b p st msg match).0.store.jobs ≡ b.store.jobs
unfolding set_entry_sync_if_match
set_sync_if_match-jobs b p st msg match = ground arith

pub set_sync_if-jobs :
    (b : Batch) (p : Text) (st : SyncState) (msg : Text) (allowed : List SyncState)
    → (set_entry_sync_if b p st msg allowed).0.store.jobs ≡ b.store.jobs
unfolding set_entry_sync_if
set_sync_if-jobs b p st msg allowed = ground arith

delete_if_sync-jobs :
    (b : Batch) (p : Text) (allowed : List SyncState)
    → (delete_entry_if_sync b p allowed).0.store.jobs ≡ b.store.jobs
unfolding delete_entry_if_sync
delete_if_sync-jobs b p allowed = ground arith

move_entry-jobs : (job : Job) (b : Batch) → (move_entry job b).store.jobs ≡ b.store.jobs
unfolding move_entry get_entry delete_entry put_entry
move_entry-jobs job b = ground arith

module _ (i : ℕ) (j : Job) (r : j.state ≡ running) where
  sync_if_match-Shows :
      (w : World) (p : Text) (st : SyncState) (msg : Text) (match : Entry → Bool)
      → Shows i j w
      → Shows i j (save w (λ b. set_entry_sync_if_match b p st msg match)).0
  sync_if_match-Shows w p st msg match s =
      (save-Shows i j w (λ b. set_entry_sync_if_match b p st msg match) s.1
        (rw (set_sync_if_match-jobs (new_batch w) p st msg match) s.0)).0

  sync_if-Shows :
      (w : World) (p : Text) (st : SyncState) (msg : Text) (allowed : List SyncState)
      → Shows i j w
      → Shows i j (save w (λ b. set_entry_sync_if b p st msg allowed)).0
  sync_if-Shows w p st msg allowed s =
      (save-Shows i j w (λ b. set_entry_sync_if b p st msg allowed) s.1
        (rw (set_sync_if-jobs (new_batch w) p st msg allowed) s.0)).0

  delete_if-Shows :
      (w : World) (p : Text) (allowed : List SyncState)
      → Shows i j w
      → Shows i j (save w (λ b. delete_entry_if_sync b p allowed)).0
  delete_if-Shows w p allowed s =
      (save-Shows i j w (λ b. delete_entry_if_sync b p allowed) s.1
        (rw (delete_if_sync-jobs (new_batch w) p allowed) s.0)).0

  move-Shows :
      (w : World) (job : Job) → Shows i j w → Shows i j (save w (λ b. (move_entry job b, tt))).0
  move-Shows w job s =
      (save-Shows i j w (λ b. (move_entry job b, tt)) s.1
        (rw (move_entry-jobs job (new_batch w)) s.0)).0

  finish-Shows : {A : Type 0} (x : World × Result A) → Shows i j x.0 → Shows i j (finish x).0
  finish-Shows (w, ok a) s = s
  finish-Shows (w, err e) s = s

  module _ (job : Job) (ops : List Op) (foreign : IsForeign ops) where
    mkdir-Shows :
        (w : World) (o : Option Text) → Shows i j w → Shows i j (execute_mkdir w job ops o).0
    unfolding execute_mkdir
    mkdir-Shows w (some t) s = others-Shows w ops i j foreign r s
    mkdir-Shows w none s =
        finish-Shows _ (sync_if_match-Shows _ _ _ _ _ (others-Shows w ops i j foreign r s))

    removed-Shows :
        (w : World) (o : Option Text) → Shows i j w → Shows i j (removed_by_machine w job ops o).0
    unfolding removed_by_machine
    removed-Shows w (some t) s = others-Shows w ops i j foreign r s
    removed-Shows w none s =
        finish-Shows _ (delete_if-Shows _ _ _ (others-Shows w ops i j foreign r s))

    delete-Shows :
        (w : World) (o : Option Text) → Shows i j w → Shows i j (execute_delete w job ops o).0
    unfolding execute_delete
    delete-Shows w o s =
        let t = sync_if-Shows w job.path deleting [] deleting_states s in
        ground (
          arith,
          t,
          removed-Shows (save w (λ b. set_entry_sync_if b job.path deleting [] deleting_states)).0 o
              t,
        )

    rename-Shows :
        (w : World) (o : Option Text) → Shows i j w → Shows i j (execute_rename w job ops o).0
    unfolding execute_rename
    rename-Shows w (some t) s = others-Shows w ops i j foreign r s
    rename-Shows w none s = finish-Shows _ (move-Shows _ job (others-Shows w ops i j foreign r s))

    upload_sync-Shows :
        (w : World) (st : SyncState) → Shows i j w → Shows i j (set_upload_job_sync w job st []).0
    unfolding set_upload_job_sync
    upload_sync-Shows w st s = sync_if_match-Shows _ _ _ _ _ s

    uploaded-Shows :
        (w : World) (o : Option Text) → Shows i j w → Shows i j (uploaded w job ops o).0
    unfolding uploaded
    uploaded-Shows w (some t) s = others-Shows w ops i j foreign r s
    uploaded-Shows w none s =
        finish-Shows _ (upload_sync-Shows _ synced (others-Shows w ops i j foreign r s))

    module _ (is_gcode : Text → Bool) (in_cache : Text → Bool) where
      upload-Shows :
          (w : World) (o : Option Text)
          → Shows i j w
          → Shows i j (execute_upload is_gcode in_cache w job ops o).0
      unfolding execute_upload
      upload-Shows w o s =
          let t = upload_sync-Shows w uploading s in
          ground (arith, t, uploaded-Shows (set_upload_job_sync w job uploading []).0 o t)

      kind-Shows :
          (k : JobKind) (w : World) (o : Option Text)
          → Shows i j w
          → Shows i j (execute_kind is_gcode in_cache k w job ops o).0
      unfolding execute_kind
      kind-Shows job_mkdir w o s = mkdir-Shows w o s
      kind-Shows job_delete w o s = delete-Shows w o s
      kind-Shows job_rename w o s = rename-Shows w o s
      kind-Shows job_upload w o s = upload-Shows w o s
      kind-Shows job_other w o s = s

      pub execute-Shows :
          (w : World) (o : Option Text)
          → Shows i j w
          → Shows i j (execute is_gcode in_cache w job ops o).0
      unfolding execute
      execute-Shows w o s = ground (arith, kind-Shows job.kind w o s)
