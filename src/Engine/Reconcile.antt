-- ===== src/Engine/Reconcile.antt =====
-- internal/synceng/reconcile.go: the catalog against the machine's listing. The listing is an association list
-- in any order, as Go walks a map in any order. A failed batch is logged by the code and otherwise ignored.
pub mod Listing
pub mod Sparing
use makera_cnc_controller.Base.{
  ℕ, zero, suc, Bool, true, false, not, ◌&&◌, ◌||◌, Option, none, some, List, [], ◌∷◌, ◌++◌, map,
  ◌==◌, if◌then◌else◌, is_some, keep_if,
}
use makera_cnc_controller.Base.Text.{Text, text_eq}
use makera_cnc_controller.Base.Map
use makera_cnc_controller.Store.{
  SyncState, synced, remote_only, sync_eq, cache_none, cache_ready, cache_validating, cache_blank,
  cache_eq, Entry, bare_entry, Result, ok, err,
}
use makera_cnc_controller.Store.Batch.{Batch, get_entry, put_entry, delete_entry}
use makera_cnc_controller.Store.Ops.{Op}
use makera_cnc_controller.Store.Commit.{World}
use makera_cnc_controller.Store.Commit.Opening.{save}
use makera_cnc_controller.Engine.Execute.{others}
use makera_cnc_controller.Protocol.Listing.{DirEntry}

unfoldable pub is_settled : SyncState → Bool
is_settled s = sync_eq s synced || sync_eq s remote_only

bool_eq : Bool → Bool → Bool
bool_eq true b = b
bool_eq false b = not b

-- The entry is as the snapshot of it.
unfoldable pub same_reconcile_entry : Entry → Entry → Bool
unfolding bool_eq
same_reconcile_entry current snapshot =
    text_eq current.path snapshot.path
    && bool_eq current.is_dir snapshot.is_dir
    && (current.size == snapshot.size)
    && text_eq current.md5 snapshot.md5
    && text_eq current.cache_path snapshot.cache_path
    && cache_eq current.cache_state snapshot.cache_state
    && sync_eq current.sync snapshot.sync
    && (current.updated_at == snapshot.updated_at)

-- A batch that acts on the entry at a path if it is as the snapshot.
unfoldable pub if_unchanged : Entry → (Batch → Entry → Batch) → Batch → Batch
if_unchanged snapshot act b = elim (get_entry b snapshot.path) [
  | none ↦ b
  | some latest ↦ if same_reconcile_entry latest snapshot then act b latest else b
]

abbrev pub run_batch : World → (Batch → Batch) → World
run_batch w f = (save w (λ b. (f b, tt))).0

unfoldable pub discover : Entry → Batch → Batch
discover e b = if is_some (get_entry b e.path) then b else (put_entry b e).0

unfoldable pub put_discovered_if_absent : World → Entry → World
unfolding discover
put_discovered_if_absent w e = run_batch w (discover e)

unfoldable pub delete_entry_if_unchanged : World → Entry → World
unfolding if_unchanged
delete_entry_if_unchanged w snapshot =
    run_batch w (if_unchanged snapshot (λ b latest. (delete_entry b snapshot.path).0))

unfoldable pub remote_only_mtime_changed : Entry → DirEntry → Bool
remote_only_mtime_changed existing de =
    sync_eq existing.sync remote_only
    && not (existing.mtime == 0)
    && not (de.mtime == 0)
    && not (existing.mtime == de.mtime)

unfoldable pub remote_only_entry : Entry → DirEntry → Text → Entry
remote_only_entry latest de remote_md5 = record latest {
  size = de.size;
  mtime = de.mtime;
  sync = remote_only;
  cache_path = [];
  cache_state = cache_none;
  cache_checked_at = 0;
  md5 = remote_md5;
  error_text = [];
}

unfoldable pub mark_remote_only : World → Entry → DirEntry → Text → World
unfolding if_unchanged
mark_remote_only w existing de remote_md5 =
    run_batch w
      (if_unchanged existing (λ b latest. (put_entry b (remote_only_entry latest de remote_md5)).0))

unfoldable pub cache_ready_entry : ℕ → Entry → DirEntry → Text → Entry
cache_ready_entry now latest de remote_md5 = record latest {
  size = de.size;
  mtime = de.mtime;
  md5 = if text_eq remote_md5 [] then latest.md5 else remote_md5;
  cache_state = cache_ready;
  cache_checked_at = now;
  error_text = [];
}

unfoldable pub mark_cache_ready : World → Entry → DirEntry → Text → World
unfolding if_unchanged
mark_cache_ready w existing de remote_md5 = run_batch w (
    if_unchanged existing
      (λ b latest. (put_entry b (cache_ready_entry w.clock latest de remote_md5)).0))

unfoldable pub sync_state_for : DirEntry → SyncState
sync_state_for de = if de.is_dir then synced else remote_only

-- What others write before a step.
abbrev pub first_gap : List (List Op) → List Op
first_gap [] = []
first_gap (ops ∷ gaps) = ops

abbrev pub later_gaps : List (List Op) → List (List Op)
later_gaps [] = []
later_gaps (ops ∷ gaps) = gaps

-- The answer of the machine to an md5sum.
pub data Digest : Type 0 where
  digest : Text → Digest
  no_digest connection_lost : Digest

abbrev pub first_digest : List Digest → Digest
first_digest [] = connection_lost
first_digest (d ∷ ds) = d

abbrev pub later_digests : List Digest → List Digest
later_digests [] = []
later_digests (d ∷ ds) = ds

-- One entry that deepCheck has the machine digest.
check_digest : World → Entry → DirEntry → Digest → World × Bool
check_digest w existing de connection_lost = (w, false)
check_digest w existing de no_digest = (w, true)
check_digest w existing de (digest md5) =
    if not (text_eq existing.md5 []) && not (text_eq md5 existing.md5)
    then (mark_remote_only w existing de md5, true)
    else (mark_cache_ready w existing de md5, true)

-- The entries that deepCheck looks at: synced files with local bytes.
unfoldable pub is_checked : Entry → Bool
is_checked e =
    sync_eq e.sync synced
    && not e.is_dir
    && not (text_eq e.cache_path [])
    && not (cache_eq e.cache_state cache_none)

-- What deepCheck makes of an entry; false ends the sweep.
check_entry : Bool → World → List (Text × DirEntry) → Entry → Digest → World × Bool
unfolding check_digest
check_entry supports_md5 w remote existing d = elim (Map.lookup existing.path remote) [
  | none ↦ (w, true)
  | some de ↦
      if de.is_dir
      then (w, true)
      else if not (existing.size == de.size)
      then (w, true)
      else if not supports_md5
      then (mark_cache_ready w existing de [], true)
      else check_digest w existing de d
]

-- The machine is asked only where `check_entry` needs a digest.
asks_digest : Bool → List (Text × DirEntry) → Entry → Bool
asks_digest supports_md5 remote existing = elim (Map.lookup existing.path remote) [
  | none ↦ false
  | some de ↦ not de.is_dir && (existing.size == de.size) && supports_md5
]

-- The loop of deepCheck over ListEntries, with what others write before each entry.
unfoldable pub deep_check :
    Bool → World → List (Text × DirEntry) → List Entry → List Digest → List (List Op) → World × Bool
unfolding check_entry asks_digest
deep_check supports_md5 w remote [] ds gaps = (w, true)
deep_check supports_md5 w remote (existing ∷ es) ds gaps =
    let v = others w (first_gap gaps) in
    let (u, more) = check_entry supports_md5 v remote existing (first_digest ds) in
    let asked = asks_digest supports_md5 remote existing && is_checked existing in
    let rest =
      deep_check supports_md5 (if is_checked existing then u else v) remote es
        (if asked then later_digests ds else ds) (later_gaps gaps) in
    if is_checked existing && not more then (u, false) else rest
