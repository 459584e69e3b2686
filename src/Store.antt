-- ===== src/Store.antt =====
-- internal/store/types.go and the declarations of internal/store/store.go: the catalog's entries,
-- the job queue and the state of the store.
-- A string is a list of bytes and a time is a number of nanoseconds, 0 for the zero time.Time.
-- The ids, sizes and counters (int64 and int) are natural numbers: the program counts them up from 1
-- or 0. A Go string type with constants is an enum; `blank` is the empty string, and `job_other`
-- stands for a kind that is none of the constants.
pub mod Restored
pub mod Batch
pub mod Catalog
pub mod Jobs
pub mod Commit
pub mod Methods
pub mod Ops
pub mod Invariant
pub mod Calls
pub mod Transactions
pub mod Durability
pub mod Lifecycle
pub mod Transitions
pub mod Pruning
pub mod Discarding
use makera_cnc_controller.Base.{
  ℕ, Bool, true, false, ◌||◌, Option, none, some, List, [], ◌∷◌, ◌==◌, if◌then◌else◌,
}
use makera_cnc_controller.Base.Text.{Text}

pub data SyncState : Type 0 where
  synced local_only pending_upload uploading pending_delete deleting pending_rename : SyncState
  remote_only error blank : SyncState

abbrev sync_tag : SyncState → ℕ
sync_tag synced = 0
sync_tag local_only = 1
sync_tag pending_upload = 2
sync_tag uploading = 3
sync_tag pending_delete = 4
sync_tag deleting = 5
sync_tag pending_rename = 6
sync_tag remote_only = 7
sync_tag error = 8
sync_tag blank = 9

-- `==` on SyncState.
abbrev pub sync_eq : SyncState → SyncState → Bool
sync_eq a b = sync_tag a == sync_tag b

pub data CacheState : Type 0 where
  cache_none cache_ready cache_validating cache_blank : CacheState

abbrev cache_tag : CacheState → ℕ
cache_tag cache_none = 0
cache_tag cache_ready = 1
cache_tag cache_validating = 2
cache_tag cache_blank = 3

abbrev pub cache_eq : CacheState → CacheState → Bool
cache_eq a b = cache_tag a == cache_tag b

pub record Entry : Type 0 where
  pub path : Text
  pub is_dir : Bool
  pub size : ℕ
  pub mtime : ℕ
  pub md5 : Text
  pub cache_path : Text
  pub cache_state : CacheState
  pub cache_checked_at : ℕ
  pub sync : SyncState
  pub error_text : Text
  pub updated_at : ℕ

-- `Entry{Path: path}`, with every other field at its zero value.
abbrev pub bare_entry : Text → Entry
bare_entry p = record {
  path = p;
  is_dir = false;
  size = 0;
  mtime = 0;
  md5 = [];
  cache_path = [];
  cache_state = cache_blank;
  cache_checked_at = 0;
  sync = blank;
  error_text = [];
  updated_at = 0;
}

pub data JobKind : Type 0 where
  job_upload job_delete job_rename job_mkdir job_other : JobKind

abbrev kind_tag : JobKind → ℕ
kind_tag job_upload = 0
kind_tag job_delete = 1
kind_tag job_rename = 2
kind_tag job_mkdir = 3
kind_tag job_other = 4

abbrev pub kind_eq : JobKind → JobKind → Bool
kind_eq a b = kind_tag a == kind_tag b

pub data JobState : Type 0 where
  queued running done failed : JobState

abbrev state_tag : JobState → ℕ
state_tag queued = 0
state_tag running = 1
state_tag done = 2
state_tag failed = 3

abbrev pub state_eq : JobState → JobState → Bool
state_eq a b = state_tag a == state_tag b

pub record Job : Type 0 where
  pub id : ℕ
  pub kind : JobKind
  pub path : Text
  pub dest_path : Text
  pub cache_path : Text
  pub md5 : Text
  pub size : ℕ
  pub state : JobState
  pub attempts : ℕ
  pub last_error : Text
  pub created_at : ℕ
  pub updated_at : ℕ
  pub blocked_reason : Text
  pub blocked_message : Text
  pub blocked_until : Option ℕ

-- `Job{}`; the empty state string does not occur in the queue, and `done` stands in its place.
abbrev pub no_job : Job
no_job = record {
  id = 0;
  kind = job_other;
  path = [];
  dest_path = [];
  cache_path = [];
  md5 = [];
  size = 0;
  state = done;
  attempts = 0;
  last_error = [];
  created_at = 0;
  updated_at = 0;
  blocked_reason = [];
  blocked_message = [];
  blocked_until = none;
}

pub data Event : Type 0 where
  entry_event : Entry → Event
  job_event : Job → Event
  active_gcode_event : Text → Event
  reset_event : Event

-- A subscriber's channel: its id and what it has not yet received.
pub record Subscriber : Type 0 where
  pub sub_id : ℕ
  pub pending : List Event

-- `path` is where the model is persisted; the empty path keeps it in memory only.
-- The operator's settings and the execution context are left out.
pub record Store : Type 0 where
  pub path : Text
  pub entries : List (Text × Entry)
  pub jobs : List Job
  pub next_job : ℕ
  pub active : Text
  pub subs : List Subscriber
  pub next_sub : ℕ

-- The errors of internal/service, which its functions return from a batch too.
pub data Refusal : Type 0 where
  not_found directory_not_empty retry_unavailable discard_unavailable : Refusal
  invalid_argument file_failed : Refusal

pub data StoreError : Type 0 where
  flush_failed : StoreError
  job_not_found : ℕ → StoreError
  refused : Refusal → StoreError

-- Go's (value, error) pair.
pub data Result {ℓ} (A : Type ℓ) : Type ℓ where
  ok : A → Result A
  err : StoreError → Result A

abbrev pub sync_state_in : SyncState → List SyncState → Bool
sync_state_in state [] = false
sync_state_in state (candidate ∷ allowed) = sync_eq state candidate || sync_state_in state allowed
