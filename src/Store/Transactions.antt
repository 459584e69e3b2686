-- ===== src/Store/Transactions.antt =====
-- A batch as a transaction: what it leaves on disk and in memory.
use makera_cnc_controller.Base.{
  ℕ, ◌≡◌, refl, ap, Bool, true, false, not, ◌&&◌, none, some, List, [], ◌∷◌, arith, if◌then◌else◌,
  is_some, All,
}
use makera_cnc_controller.Base.Text.{text_eq}
use makera_cnc_controller.Store.{Job, Event, Store, Result, ok}
use makera_cnc_controller.Store.Batch.{
  Batch, put_entry, set_entry_sync_if_match, set_entry_sync, set_entry_sync_if, delete_entry,
  delete_entry_if_sync, matching_queued_or_failed, retire, retired_jobs, discard_entry,
  retire_where, discard_jobs, queued_upload_of, supersede_queued_uploads,
}
use makera_cnc_controller.Store.Jobs.{
  enqueue, update_job, start_job, retry_job, prune_done_jobs, prune_failed_jobs,
  set_active_gcode_path,
}
use makera_cnc_controller.Store.Ops.{Op, discards_jobs, supersedes_uploads, apply, apply_all}
use makera_cnc_controller.Store.Commit.{
  persist, Disk, Io, flush_locked, publish_locked, publish_all, World, new_batch, batch,
}
use makera_cnc_controller.Store.Invariant.{WellFormed}
use makera_cnc_controller.Store.Calls.{apply_all-WellFormed}

-- The calls in turn, as one transaction.
unfoldable pub run_ops : World → List Op → World × Result (Unit {0})
run_ops w ops = batch w (λ b. (apply_all ops b, ok tt))

-- The branches of a flush, by its result and the path.
pub flush_branches :
    (io : Io) (s : Store) (d : Disk)
    → let r = flush_locked io s d in
      All (λ (x : Disk). x.file ≡ d.file) r.seen
      × ((r.flushed ≡ false → r.disk.file ≡ d.file)
          × (r.flushed ≡ true
              → text_eq s.path [] ≡ false
              → r.disk ≡ record { file = some (persist s); tmp = none })
          × (text_eq s.path [] ≡ true → r.disk ≡ d))
unfolding flush_locked
flush_branches io s d = ground arith

-- Whatever calls of a flush fail, the file holds the old model or the new one at every point: the new
-- one after a success of a store that has a path, with no temporary file left, and the old one on the
-- way and in every other case.
pub flush_atomic :
    (io : Io) (s : Store) (d : Disk)
    → let r = flush_locked io s d in
      let replaced = r.flushed && not (text_eq s.path []) in
      All (λ (x : Disk). x.file ≡ d.file) r.seen
      × (r.disk.file ≡ (if replaced then some (persist s) else d.file))
      × (replaced && is_some r.disk.tmp ≡ false)
unfolding flush_locked
flush_atomic io s d = ground arith

-- Publishing changes the channels only.
pub publish_all-eq :
    (s : Store) (evs : List Event)
    → publish_all s evs ≡ record s { subs = (publish_all s evs).subs }
unfolding publish_all publish_locked
publish_all-eq s [] = refl
publish_all-eq s (ev ∷ evs) = publish_all-eq (publish_locked s ev) evs

pub publish_all-WellFormed :
    (s : Store) (evs : List Event) → WellFormed s → WellFormed (publish_all s evs)
publish_all-WellFormed s evs v =
    rw (publish_all-eq s evs) (record { catalog = v.catalog; ids = v.ids; tidy = v.tidy })

pub persist-publish_all : (s : Store) (evs : List Event) → persist (publish_all s evs) ≡ persist s
unfolding persist
persist-publish_all s evs = ap persist (publish_all-eq s evs)

-- A transaction of any calls that `Op` names, which replaceModel is not, whether it is committed, rolled back or has
-- nothing to write, leaves a well-formed store well formed.
pub run_ops-WellFormed :
    (w : World) (ops : List Op) → WellFormed w.store → WellFormed (run_ops w ops).0.store
unfolding run_ops batch
run_ops-WellFormed w ops v = ground (
  arith,
  apply_all-WellFormed ops (new_batch w) v,
  publish_all-WellFormed (apply_all ops (new_batch w)).store (apply_all ops (new_batch w)).events,
)

-- A batch that is not dirty holds the store it began with.
abbrev pub Clean : Batch → Store → Type 0
Clean b s = b.dirty ≡ false → b.store ≡ s

retire_nothing :
    (now : ℕ) (test : Job → Bool) (js : List Job)
    → retired_jobs now test js ≡ []
    → retire now test js ≡ js
unfolding retire retired_jobs
retire_nothing now test [] e = refl
retire_nothing now test (j ∷ js) e = ground (arith, retire_nothing now test js)

retire_where-Clean :
    (b : Batch) (test : Job → Bool) (s : Store) → Clean b s → Clean (retire_where b test).0 s
unfolding retire_where
retire_where-Clean b test s c = ground (arith, retire_nothing b.now test b.store.jobs)

apply-Clean : (op : Op) (b : Batch) (s : Store) → Clean b s → Clean (apply op b) s
unfolding apply put_entry set_entry_sync set_entry_sync_if set_entry_sync_if_match delete_entry
    delete_entry_if_sync discard_entry discard_jobs supersede_queued_uploads enqueue update_job
    start_job retry_job prune_done_jobs prune_failed_jobs set_active_gcode_path
apply-Clean (discards_jobs p kinds) b s c =
    retire_where-Clean b (matching_queued_or_failed p kinds) s c
apply-Clean (supersedes_uploads p) b s c = retire_where-Clean b (queued_upload_of p) s c
apply-Clean _ b s c = ground arith

pub apply_all-Clean :
    (ops : List Op) (b : Batch) (s : Store) → Clean b s → Clean (apply_all ops b) s
unfolding apply_all
apply_all-Clean [] b s c = c
apply_all-Clean (op ∷ ops) b s c = apply_all-Clean ops (apply op b) s (apply-Clean op b s c)
