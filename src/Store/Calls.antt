-- ===== src/Store/Calls.antt =====
-- Every call that `Op` names keeps the store well formed.
use makera_cnc_controller.Base.{
  ℕ, ◌≡◌, refl, ◌∙◌, inl, inr, Bool, List, [], ◌∷◌, arith, Option-cases,
}
use makera_cnc_controller.Base.Text.{Text}
use makera_cnc_controller.Base.Map
use makera_cnc_controller.Base.Trim.{trim_space_idem}
use makera_cnc_controller.Store.{SyncState, Entry, JobKind, queued, running, Job}
use makera_cnc_controller.Store.Batch.{
  Batch, find_job, put_entry, set_entry_sync_if_match, set_entry_sync, set_entry_sync_if,
  delete_entry, delete_entry_if_sync, matching_queued_or_failed, discard_entry, discard_jobs,
  queued_upload_of, supersede_queued_uploads,
}
use makera_cnc_controller.Store.Jobs.{
  enqueue, update_job, start_job, retry_job, prune_done_jobs, prune_failed_jobs,
  set_active_gcode_path,
}
use makera_cnc_controller.Store.Ops.{
  Op, puts_entry, sets_sync, sets_sync_if, sets_sync_if_match, deletes_entry, deletes_entry_if_sync,
  discards_entry, discards_jobs, supersedes_uploads, enqueues, updates_job, starts_job, retries_job,
  prunes_done, prunes_failed, sets_active, apply, apply_all,
}
use makera_cnc_controller.Store.Invariant.{
  WellFormed, Chain-append, Chain-retire, Chain-prune_done, Chain-prune_failed, find_job-id,
  insert-All, delete-All, lookup-All, normalize_new_entry-Ok, write_sync-WellFormed,
  drop_entry-WellFormed, retire_where-WellFormed, write_job-WellFormed,
}

put_entry-WellFormed :
    (b : Batch) (e : Entry) → WellFormed b.store → WellFormed (put_entry b e).0.store
unfolding put_entry
put_entry-WellFormed b e v = record {
  catalog =
      insert-All e.path _ b.store.entries (ground (arith, normalize_new_entry-Ok e)) v.catalog;
  ids = v.ids;
  tidy = v.tidy;
}

set_sync_if_match-WellFormed :
    (b : Batch) (p : Text) (st : SyncState) (msg : Text) (match : Entry → Bool)
    → WellFormed b.store
    → WellFormed (set_entry_sync_if_match b p st msg match).0.store
unfolding set_entry_sync_if_match
set_sync_if_match-WellFormed b p st msg match v =
    elim (Option-cases (Map.lookup p b.store.entries)) [
      | inl e ↦ rw (e, set_entry_sync_if_match) v
      | inr (x, e) ↦
          ground (
            arith,
            write_sync-WellFormed b p x st msg (lookup-All p b.store.entries x v.catalog e) v,
          )
    ]

set_sync-WellFormed :
    (b : Batch) (p : Text) (st : SyncState) (msg : Text)
    → WellFormed b.store
    → WellFormed (set_entry_sync b p st msg).0.store
unfolding set_entry_sync
set_sync-WellFormed b p st msg v = elim (Option-cases (Map.lookup p b.store.entries)) [
  | inl e ↦ rw (e, set_entry_sync) v
  | inr (x, e) ↦
      ground
        (arith, write_sync-WellFormed b p x st msg (lookup-All p b.store.entries x v.catalog e) v)
]

set_sync_if-WellFormed :
    (b : Batch) (p : Text) (st : SyncState) (msg : Text) (allowed : List SyncState)
    → WellFormed b.store
    → WellFormed (set_entry_sync_if b p st msg allowed).0.store
unfolding set_entry_sync_if
set_sync_if-WellFormed b p st msg allowed v = elim (Option-cases (Map.lookup p b.store.entries)) [
  | inl e ↦ rw (e, set_entry_sync_if) v
  | inr (x, e) ↦
      ground
        (arith, write_sync-WellFormed b p x st msg (lookup-All p b.store.entries x v.catalog e) v)
]

delete_entry-WellFormed :
    (b : Batch) (p : Text) → WellFormed b.store → WellFormed (delete_entry b p).0.store
unfolding delete_entry
delete_entry-WellFormed b p v = ground (arith, drop_entry-WellFormed b p v)

delete_if_sync-WellFormed :
    (b : Batch) (p : Text) (allowed : List SyncState)
    → WellFormed b.store
    → WellFormed (delete_entry_if_sync b p allowed).0.store
unfolding delete_entry_if_sync
delete_if_sync-WellFormed b p allowed v = ground (arith, drop_entry-WellFormed b p v)

discard_entry-WellFormed :
    (b : Batch) (p : Text) (kinds : List JobKind)
    → WellFormed b.store
    → WellFormed (discard_entry b p kinds).0.store
unfolding discard_entry
discard_entry-WellFormed b p kinds v = ground (
  arith,
  delete-All p b.store.entries v.catalog,
  Chain-retire 1 b.store.next_job b.now (matching_queued_or_failed p kinds) b.store.jobs v.ids,
)

enqueue-WellFormed : (b : Batch) (j : Job) → WellFormed b.store → WellFormed (enqueue b j).0.store
unfolding enqueue
enqueue-WellFormed b j v = record {
  catalog = v.catalog;
  ids = Chain-append 1 b.store.next_job b.store.jobs _ refl v.ids;
  tidy = v.tidy;
}

update_job-WellFormed :
    (b : Batch) (i : ℕ) (f : Job → Job)
    → ((j : Job) → (f j).id ≡ j.id)
    → WellFormed b.store
    → WellFormed (update_job b i f).0.store
unfolding update_job
update_job-WellFormed b i f h v = elim (Option-cases (find_job i b.store.jobs)) [
  | inl e ↦ rw (e, update_job) v
  | inr (j, e) ↦
      rw (e, update_job) (write_job-WellFormed b i _ (h j ∙ find_job-id i b.store.jobs j e) v)
]

start_job-WellFormed : (b : Batch) (i : ℕ) → WellFormed b.store → WellFormed (start_job b i).0.store
unfolding start_job
start_job-WellFormed b i v = elim (Option-cases (find_job i b.store.jobs)) [
  | inl e ↦ rw (e, start_job) v
  | inr (j, e) ↦ ground (
    arith,
    write_job-WellFormed b i (record j { state = running; updated_at = b.now })
        (find_job-id i b.store.jobs j e) v,
  )
]

retry_job-WellFormed : (b : Batch) (i : ℕ) → WellFormed b.store → WellFormed (retry_job b i).0.store
unfolding retry_job
retry_job-WellFormed b i v = elim (Option-cases (find_job i b.store.jobs)) [
  | inl e ↦ rw (e, retry_job) v
  | inr (j, e) ↦ ground (
    arith,
    write_job-WellFormed b i
        (record j { state = queued; attempts = 0; last_error = []; updated_at = b.now })
        (find_job-id i b.store.jobs j e) v,
  )
]

prune_done-WellFormed :
    (b : Batch) (cutoff : ℕ) → WellFormed b.store → WellFormed (prune_done_jobs b cutoff).0.store
unfolding prune_done_jobs
prune_done-WellFormed b cutoff v =
    ground (arith, Chain-prune_done 1 b.store.next_job cutoff b.store.jobs v.ids)

prune_failed-WellFormed :
    (b : Batch) (n : ℕ) → WellFormed b.store → WellFormed (prune_failed_jobs b n).0.store
unfolding prune_failed_jobs
prune_failed-WellFormed b n v =
    ground (arith, Chain-prune_failed 1 b.store.next_job n b.store.jobs v.ids)

set_active-WellFormed :
    (b : Batch) (p : Text) → WellFormed b.store → WellFormed (set_active_gcode_path b p).0.store
unfolding set_active_gcode_path
set_active-WellFormed b p v = ground (arith, trim_space_idem p)

-- Each of the sixteen calls keeps the catalog keyed by path with its cache states right, and the ids
-- of the queue rising from 1 and below the next id.
pub apply-WellFormed : (op : Op) (b : Batch) → WellFormed b.store → WellFormed (apply op b).store
unfolding apply
apply-WellFormed (puts_entry e) b v = put_entry-WellFormed b e v
apply-WellFormed (sets_sync p st msg) b v = set_sync-WellFormed b p st msg v
apply-WellFormed (sets_sync_if p st msg allowed) b v = set_sync_if-WellFormed b p st msg allowed v
apply-WellFormed (sets_sync_if_match p st msg match) b v =
    set_sync_if_match-WellFormed b p st msg match v
apply-WellFormed (deletes_entry p) b v = delete_entry-WellFormed b p v
apply-WellFormed (deletes_entry_if_sync p allowed) b v = delete_if_sync-WellFormed b p allowed v
apply-WellFormed (discards_entry p kinds) b v = discard_entry-WellFormed b p kinds v
apply-WellFormed (discards_jobs p kinds) b v =
    unfold discard_jobs in retire_where-WellFormed b (matching_queued_or_failed p kinds) v
apply-WellFormed (supersedes_uploads p) b v =
    unfold supersede_queued_uploads in retire_where-WellFormed b (queued_upload_of p) v
apply-WellFormed (enqueues j) b v = enqueue-WellFormed b j v
apply-WellFormed (updates_job i f h) b v = update_job-WellFormed b i f h v
apply-WellFormed (starts_job i) b v = start_job-WellFormed b i v
apply-WellFormed (retries_job i) b v = retry_job-WellFormed b i v
apply-WellFormed (prunes_done cutoff) b v = prune_done-WellFormed b cutoff v
apply-WellFormed (prunes_failed n) b v = prune_failed-WellFormed b n v
apply-WellFormed (sets_active p) b v = set_active-WellFormed b p v

pub apply_all-WellFormed :
    (ops : List Op) (b : Batch) → WellFormed b.store → WellFormed (apply_all ops b).store
unfolding apply_all
apply_all-WellFormed [] b v = v
apply_all-WellFormed (op ∷ ops) b v =
    apply_all-WellFormed ops (apply op b) (apply-WellFormed op b v)
