-- ===== src/Store/Commit.antt =====
-- internal/store/store.go: flushing the model to it, and `Batch` as one transaction.
-- A flush is the sequence of system calls of flushLocked; `Io` says how each of them ends. The disk
-- is what the file system shows; the loss of data that was not synced is not modelled.
pub mod Opening
use makera_cnc_controller.Base.{
  ℕ, ◌+◌, Bool, true, false, not, Option, none, some, List, [], ◌∷◌, ◌++◌, map, ltb, leb, ◌==◌,
  if◌then◌else◌, length, keep_if,
}
use makera_cnc_controller.Base.Text.{Text, text_eq, trim_space}
use makera_cnc_controller.Store.{
  Entry, queued, state_eq, Job, Event, reset_event, Subscriber, Store, flush_failed, Result, ok,
  err,
}
use makera_cnc_controller.Store.Batch.{Batch, commit_event, normalize_loaded_entry}

-- The JSON document, less the settings and the execution context.
pub record Persisted : Type 0 where
  pub entries : List (Text × Entry)
  pub jobs : List Job
  pub next_job : ℕ
  pub active_gcode_path : Text

unfoldable pub persist : Store → Persisted
persist s = record {
  entries = s.entries;
  jobs = s.jobs;
  next_job = s.next_job;
  active_gcode_path = s.active;
}

pub data Content : Type 0 where
  partial : Content
  whole : Persisted → Content

-- The file at `path` and the file at `path + ".tmp"`.
pub record Disk : Type 0 where
  pub file : Option Persisted
  pub tmp : Option Content

pub record Io : Type 0 where
  pub marshal_ok : Bool
  pub open_ok : Bool
  pub write_ok : Bool
  pub sync_ok : Bool
  pub close_ok : Bool
  pub rename_ok : Bool
  pub remove_ok : Bool

-- What a flush leaves: the disk, whether it succeeded, and the disk after each call on the way.
pub record Flushed : Type 0 where
  pub disk : Disk
  pub flushed : Bool
  pub seen : List Disk

-- os.Remove(tmp), whose error is ignored.
abbrev remove_tmp : Io → Disk → Disk
remove_tmp io d = if io.remove_ok then record d { tmp = none } else d

abbrev flush_failure : Io → Disk → List Disk → Flushed
flush_failure io d seen = record { disk = remove_tmp io d; flushed = false; seen = seen }

unfoldable pub flush_locked : Io → Store → Disk → Flushed
flush_locked io s d =
    let opened : Disk = record d { tmp = some partial } in
    let written : Disk = record d { tmp = some (whole (persist s)) } in
    let unchanged : Flushed = record { disk = d; flushed = false; seen = [] } in
    if text_eq s.path []
    then record unchanged { flushed = true }
    else if not io.marshal_ok
    then unchanged
    else if not io.open_ok
    then unchanged
    else if not io.write_ok
    then flush_failure io opened (opened ∷ [])
    else if not io.sync_ok
    then flush_failure io written (opened ∷ written ∷ [])
    else if not io.close_ok
    then flush_failure io written (opened ∷ written ∷ [])
    else if not io.rename_ok
    then flush_failure io written (opened ∷ written ∷ [])
    else record {
      disk = record { file = some (persist s); tmp = none };
      flushed = true;
      seen = opened ∷ written ∷ [];
    }

abbrev pub channel_cap : ℕ
channel_cap = 64

-- `select { case ch <- ev: default: }`
unfoldable pub offer : Event → Subscriber → Subscriber
offer ev sub =
    if ltb (length sub.pending) channel_cap
    then record sub { pending = sub.pending ++ (ev ∷ []) }
    else sub

unfoldable pub publish_locked : Store → Event → Store
unfolding offer
publish_locked s ev = record s { subs = map (offer ev) s.subs }

unfoldable pub publish_all : Store → List Event → Store
unfolding publish_locked
publish_all s [] = s
publish_all s (ev ∷ evs) = publish_all (publish_locked s ev) evs

unfoldable pub subscribe : Store → Store × ℕ
subscribe s = (
  record s {
    subs = s.subs ++ (record { sub_id = s.next_sub; pending = [] } ∷ []);
    next_sub = s.next_sub + 1;
  },
  s.next_sub,
)

unfoldable pub unsubscribe : Store → ℕ → Store
unsubscribe s i = record s { subs = keep_if (λ sub. not (sub.sub_id == i)) s.subs }

abbrev io_ok : Io
io_ok = record {
  marshal_ok = true;
  open_ok = true;
  write_ok = true;
  sync_ok = true;
  close_ok = true;
  rename_ok = true;
  remove_ok = true;
}

-- How the next flush ends; the flushes behind those listed succeed.
abbrev pub next_io : List Io → Io
next_io [] = io_ok
next_io (io ∷ ios) = io

abbrev later_ios : List Io → List Io
later_ios [] = []
later_ios (io ∷ ios) = ios

-- The store with its surroundings: the disk, the clock, and how the coming flushes end.
pub record World : Type 0 where
  pub store : Store
  pub disk : Disk
  pub clock : ℕ
  pub ios : List Io

abbrev pub new_batch : World → Batch
new_batch w = record { store = w.store; now = w.clock; dirty = false; events = [] }

-- modelSnapshot, and the fields that restoreLocked writes back. The copies are values: what the pointers of the
-- catalog and the queue share is not modelled.
pub record ModelSnapshot : Type 0 where
  pub entries : List (Text × Entry)
  pub jobs : List Job
  pub next_job : ℕ
  pub active : Text

abbrev pub snapshot_locked : Store → ModelSnapshot
snapshot_locked s = record {
  entries = s.entries;
  jobs = s.jobs;
  next_job = s.next_job;
  active = s.active;
}

abbrev pub restore_locked : Store → ModelSnapshot → Store
restore_locked s snap = record s {
  entries = snap.entries;
  jobs = snap.jobs;
  next_job = snap.next_job;
  active = snap.active;
}

-- The fields outside the model stay as they were while the lock is held.
abbrev pub under_lock : Store → Store → Store
under_lock before s = record s {
  path = before.path;
  subs = before.subs;
  next_sub = before.next_sub;
}

abbrev pub rolled_back_to : World → Store → World
rolled_back_to w s = record w {
  store = restore_locked (under_lock w.store s) (snapshot_locked w.store);
}

module _ {A : Type 0} where
  finish_batch : World → Flushed → Batch → A → World × Result A
  finish_batch w f b a =
      if f.flushed
      then (
        record w { store = publish_all b.store b.events; disk = f.disk; ios = later_ios w.ios },
        ok a,
      )
      else (
        record (rolled_back_to w b.store) { disk = f.disk; ios = later_ios w.ios },
        err flush_failed,
      )

  settle : World → Batch × Result A → World × Result A
  unfolding finish_batch
  settle w (b, err e) = (rolled_back_to w b.store, err e)
  settle w (b, ok a) =
      if not b.dirty
      then (record w { store = b.store }, ok a)
      else finish_batch w (flush_locked (next_io w.ios) b.store w.disk) b a

  -- batchLocked: an error of `fn` or of the flush brings back the snapshot.
  -- Batch and batchLocked.
  unfoldable pub batch : World → (Batch → Batch × Result A) → World × Result A
  unfolding settle
  batch w fn = settle w (fn (new_batch w))
