-- ===== src/Store/Batch.antt =====
-- internal/store/store.go: the operations of `Batch`. A method that changes the batch returns the
-- new batch with its result; a (T, bool) result is an Option, except where false comes with a value.
use makera_cnc_controller.Base.{
  ℕ, Bool, true, false, ◌&&◌, ◌||◌, Option, none, some, List, [], ◌∷◌, ◌++◌, ◌==◌, length, any,
  if◌then◌else◌,
}
use makera_cnc_controller.Base.Text.{Text, text_eq}
use makera_cnc_controller.Base.Map
use makera_cnc_controller.Store.{
  Store, Entry, Job, JobKind, Event, SyncState, CacheState, cache_none, cache_ready, cache_blank,
  queued, done, failed, job_upload, entry_event, job_event, bare_entry, sync_state_in, cache_eq,
  kind_eq, state_eq,
}

pub record Batch : Type 0 where
  pub store : Store
  pub now : ℕ
  pub dirty : Bool
  pub events : List Event

-- `b.markDirty()` and the publication of an event, with the store that the call leaves.
abbrev pub commit_event : Batch → Store → Event → Batch
commit_event b s e = record b { store = s; dirty = true; events = b.events ++ (e ∷ []) }

unfoldable pub normalize_loaded_entry : Entry → Entry
normalize_loaded_entry e =
    if e.is_dir || text_eq e.cache_path []
    then record e { cache_state = cache_none; cache_checked_at = 0 }
    else e

ready_by_default : CacheState → CacheState
ready_by_default cache_blank = cache_ready
ready_by_default c = c

unfoldable pub normalize_new_entry : Entry → Entry
unfolding ready_by_default
normalize_new_entry e =
    if e.is_dir || text_eq e.cache_path []
    then record e { cache_state = cache_none; cache_checked_at = 0 }
    else let state = ready_by_default e.cache_state in
      record e {
        cache_state = state;
        cache_checked_at = if cache_eq state cache_none then 0 else e.cache_checked_at;
      }

abbrev pub set_entries : Store → List (Text × Entry) → Store
set_entries s es = record s { entries = es }

abbrev pub set_jobs : Store → List Job → Store
set_jobs s js = record s { jobs = js }

unfoldable pub get_entry : Batch → Text → Option Entry
get_entry b path = Map.lookup path b.store.entries

unfoldable pub find_job : ℕ → List Job → Option Job
find_job i [] = none
find_job i (j ∷ js) = if j.id == i then some j else find_job i js

unfoldable pub put_entry : Batch → Entry → Batch × Entry
put_entry b e =
    let cp : Entry = record (normalize_new_entry e) { updated_at = b.now } in
    (
      commit_event b (set_entries b.store (Map.insert e.path cp b.store.entries)) (entry_event cp),
      cp,
    )

-- The writes that the three SetEntrySync functions share: `e` is the entry found at `path`.
unfoldable pub write_sync : Batch → Text → Entry → SyncState → Text → Batch × Option Entry
write_sync b path e state msg =
    let cp : Entry = record e { sync = state; error_text = msg; updated_at = b.now } in
    (
      commit_event b (set_entries b.store (Map.insert path cp b.store.entries)) (entry_event cp),
      some cp,
    )

-- SetEntrySyncIfMatch.
unfoldable pub set_entry_sync_if_match :
    Batch → Text → SyncState → Text → (Entry → Bool) → Batch × Option Entry
unfolding write_sync
set_entry_sync_if_match b path state msg match = elim (Map.lookup path b.store.entries) [
  | none ↦ (b, none)
  | some e ↦ if match e then write_sync b path e state msg else (b, none)
]

unfoldable pub set_entry_sync : Batch → Text → SyncState → Text → Batch × Option Entry
unfolding write_sync
set_entry_sync b path state msg = elim (Map.lookup path b.store.entries) [
  | none ↦ (b, none)
  | some e ↦ write_sync b path e state msg
]

unfoldable pub set_entry_sync_if :
    Batch → Text → SyncState → Text → List SyncState → Batch × Option Entry
unfolding write_sync
set_entry_sync_if b path state msg allowed = elim (Map.lookup path b.store.entries) [
  | none ↦ (b, none)
  | some e ↦ if sync_state_in e.sync allowed then write_sync b path e state msg else (b, none)
]

unfoldable pub drop_entry : Batch → Text → Batch
drop_entry b path =
    commit_event b (set_entries b.store (Map.delete path b.store.entries))
      (entry_event (bare_entry path))

unfoldable pub delete_entry : Batch → Text → Batch × Bool
unfolding drop_entry
delete_entry b path = elim (Map.lookup path b.store.entries) [
  | none ↦ (b, false)
  | some e ↦ (drop_entry b path, true)
]

unfoldable pub delete_entry_if_sync : Batch → Text → List SyncState → Batch × Option Entry
unfolding drop_entry
delete_entry_if_sync b path allowed = elim (Map.lookup path b.store.entries) [
  | none ↦ (b, none)
  | some e ↦ if sync_state_in e.sync allowed then (drop_entry b path, some e) else (b, none)
]

abbrev pub kind_in : JobKind → List JobKind → Bool
kind_in k kinds = any (kind_eq k) kinds

-- The test of matchingQueuedOrFailedJobs.
unfoldable pub matching_queued_or_failed : Text → List JobKind → Job → Bool
matching_queued_or_failed path kinds j =
    text_eq j.path path
    && kind_in j.kind kinds
    && (state_eq j.state queued || state_eq j.state failed)

-- A job that is marked done without being run.
abbrev pub retired : ℕ → Job → Job
retired now j = record j { state = done; last_error = []; updated_at = now }

-- The queue after the jobs that pass the test are retired, and those jobs.
unfoldable pub retire : ℕ → (Job → Bool) → List Job → List Job
retire now test [] = []
retire now test (j ∷ js) = (if test j then retired now j else j) ∷ retire now test js

unfoldable pub retired_jobs : ℕ → (Job → Bool) → List Job → List Job
retired_jobs now test [] = []
retired_jobs now test (j ∷ js) =
    if test j then retired now j ∷ retired_jobs now test js else retired_jobs now test js

abbrev job_events : List Job → List Event
job_events [] = []
job_events (j ∷ js) = job_event j ∷ job_events js

unfoldable pub discard_entry : Batch → Text → List JobKind → Batch × Option Entry
discard_entry b path kinds = elim (Map.lookup path b.store.entries) [
  | none ↦ (b, none)
  | some e ↦
      let test = matching_queued_or_failed path kinds in
      let s : Store = set_entries b.store (Map.delete path b.store.entries) in
      (
        record b {
          store = set_jobs s (retire b.now test b.store.jobs);
          dirty = true;
          events =
              b.events
              ++ (job_events (retired_jobs b.now test b.store.jobs)
                  ++ (entry_event (bare_entry path) ∷ []));
        },
        some e,
      )
]

is_nonempty : List Job → Bool
is_nonempty [] = false
is_nonempty (j ∷ js) = true

-- The loop that DiscardJobs and SupersedeQueuedUploads share.
unfoldable pub retire_where : Batch → (Job → Bool) → Batch × List Job
unfolding is_nonempty
retire_where b test =
    let out = retired_jobs b.now test b.store.jobs in
    (
      record b {
        store = set_jobs b.store (retire b.now test b.store.jobs);
        dirty = b.dirty || is_nonempty out;
        events = b.events ++ job_events out;
      },
      out,
    )

unfoldable pub discard_jobs : Batch → Text → List JobKind → Batch × List Job
unfolding retire_where
discard_jobs b path kinds = retire_where b (matching_queued_or_failed path kinds)

unfoldable pub queued_upload_of : Text → Job → Bool
queued_upload_of path j =
    kind_eq j.kind job_upload
    && text_eq j.path path
    && (state_eq j.state queued || state_eq j.state failed)

unfoldable pub supersede_queued_uploads : Batch → Text → Batch × ℕ
unfolding retire_where
supersede_queued_uploads b path =
    let (b', out) = retire_where b (queued_upload_of path) in (b', length out)
