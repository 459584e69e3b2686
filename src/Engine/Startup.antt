-- ===== src/Engine/Startup.antt =====
-- internal/synceng/reconcile.go: the cache at start-up. PrepareStartupCacheValidation runs before anything else
-- writes to the store (cmd/proxy/main.go), and ValidateStartupCache later holds the cache against the machine.
pub mod Conservative
pub mod Confirmed
use makera_cnc_controller.Base.{
  ℕ, Bool, true, false, not, ◌&&◌, ◌||◌, Option, none, some, List, [], ◌∷◌, ◌++◌, ◌==◌,
  if◌then◌else◌, keep_if,
}
use makera_cnc_controller.Base.Text.{Text, text_eq}
use makera_cnc_controller.Base.Map
use makera_cnc_controller.Store.{
  SyncState, synced, remote_only, sync_eq, cache_none, cache_ready, cache_validating, cache_blank,
  cache_eq, Entry, StoreError, Result, ok, err,
}
use makera_cnc_controller.Store.Ops.{Op}
use makera_cnc_controller.Store.Commit.{World}
use makera_cnc_controller.Store.Methods.{put_entry_saved, entry_at}
use makera_cnc_controller.Store.Catalog.{list_entries}
use makera_cnc_controller.Engine.Execute.{others}
use makera_cnc_controller.Engine.Drain.{recover_interrupted_jobs}
use makera_cnc_controller.Engine.Reconcile.{
  delete_entry_if_unchanged, mark_remote_only, mark_cache_ready, first_gap, later_gaps, Digest,
  digest, no_digest, connection_lost, first_digest, later_digests,
}
use makera_cnc_controller.Protocol.Listing.{DirEntry}

has_cache_state : Entry → Bool
has_cache_state e = not (cache_eq e.cache_state cache_none) || not (e.cache_checked_at == 0)

abbrev clear_cache : Entry → Entry
clear_cache e = record e { cache_state = cache_none; cache_checked_at = 0 }

abbrev forget_cache : Entry → Entry
forget_cache e = record (clear_cache e) { cache_path = []; sync = remote_only; error_text = [] }

write_if : Bool → Entry → Option Entry
write_if b e = if b then some e else none

-- What is written for an entry, where anything is; `gone` is the answer of os.Stat on its cache file.
unfoldable pub prepared : Bool → Entry → Option Entry
unfolding has_cache_state write_if
prepared gone e =
    if e.is_dir
    then write_if (has_cache_state e) (clear_cache e)
    else if sync_eq e.sync remote_only
    then write_if (not (text_eq e.cache_path []) || has_cache_state e)
        (clear_cache (record e { cache_path = [] }))
    else if text_eq e.cache_path []
    then if sync_eq e.sync synced
      then some (forget_cache e)
      else write_if (has_cache_state e) (clear_cache e)
    else if sync_eq e.sync synced
    then if gone
      then some (forget_cache e)
      else write_if (not (cache_eq e.cache_state cache_validating) || not (e.cache_checked_at == 0))
          (record e { cache_state = cache_validating; cache_checked_at = 0; error_text = [] })
    else write_if (not (cache_eq e.cache_state cache_ready) || not (e.cache_checked_at == 0))
        (record e { cache_state = cache_ready; cache_checked_at = 0 })

-- The cache file that is removed for an entry.
unfoldable pub removed_file : Entry → List Text
removed_file e =
    if not e.is_dir && sync_eq e.sync remote_only && not (text_eq e.cache_path [])
    then e.cache_path ∷ []
    else []

-- `missing` says which files are not there once the files of the list were to be removed.
module _ (missing : List Text → Text → Bool) where
  unfoldable pub prepare_loop : World → List Text → List Entry → World × Result (Unit {0})
  unfolding removed_file
  prepare_loop w removed [] = (w, ok tt)
  prepare_loop w removed (e ∷ es) =
      let removed' = removed ++ removed_file e in
      elim (prepared (missing removed' e.cache_path) e) [
        | none ↦ prepare_loop w removed' es
        | some e' ↦
            let (w', r) = put_entry_saved w e' in
            let rest = prepare_loop w' removed' es in elim r [ err x ↦ (w', err x) | ok _ ↦ rest ]
      ]

  unfoldable pub prepare_startup_cache_validation : World → Text → World × Result (Unit {0})
  unfolding prepare_loop
  prepare_startup_cache_validation w msg =
      let (w', r) = recover_interrupted_jobs w msg in
      let rest = prepare_loop w' [] (list_entries w'.store) in
      elim r [ err x ↦ (w', err x) | ok _ ↦ rest ]

is_candidate : Entry → Bool
is_candidate e =
    sync_eq e.sync synced
    && not e.is_dir
    && not (text_eq e.cache_path [])
    && (cache_eq e.cache_state cache_validating || cache_eq e.cache_state cache_blank)

unfoldable pub startup_cache_validation_candidates : World → List Entry
unfolding is_candidate
startup_cache_validation_candidates w = keep_if is_candidate (list_entries w.store)

-- cacheValidationResult, where `remote` is none for a path that is not in the listing, and `digest` is none where
-- no md5sum was asked for.
pub record CacheValidationResult : Type 0 where
  pub remote : Option DirEntry
  pub digest : Option Digest

check_one : Bool → List (Text × DirEntry) → Entry → Digest → CacheValidationResult
check_one supports_md5 remote e d = elim (Map.lookup e.path remote) [
  | none ↦ record { remote = none; digest = none }
  | some de ↦ record {
    remote = some de;
    digest = if de.is_dir || not (e.size == de.size) || not supports_md5 then none else some d;
  }
]

-- The results, or none where the connection broke.
unfoldable pub check_cached_entries :
    Bool
    → List (Text × DirEntry)
    → List Entry
    → List Digest
    → Option (List (Text × CacheValidationResult))
unfolding check_one
check_cached_entries supports_md5 remote [] ds = some []
check_cached_entries supports_md5 remote (e ∷ es) ds =
    let res = check_one supports_md5 remote e (first_digest ds) in
    elim res.digest [
      | none ↦ elim (check_cached_entries supports_md5 remote es ds) [
        | none ↦ none
        | some results ↦ some (Map.insert e.path res results)
      ]
      | some connection_lost ↦ none
      | some d ↦ elim (check_cached_entries supports_md5 remote es (later_digests ds)) [
        | none ↦ none
        | some results ↦ some (Map.insert e.path res results)
      ]
    ]

judge_digest : World → Entry → DirEntry → Option Digest → World
judge_digest w latest de none = mark_cache_ready w latest de []
judge_digest w latest de (some no_digest) = w
judge_digest w latest de (some connection_lost) = w
judge_digest w latest de (some (digest md5)) =
    if not (text_eq latest.md5 []) && not (text_eq md5 latest.md5)
    then mark_remote_only w latest de md5
    else mark_cache_ready w latest de md5

judge_remote : World → Entry → Option Digest → Option DirEntry → World
unfolding judge_digest
judge_remote w latest d none = delete_entry_if_unchanged w latest
judge_remote w latest d (some de) =
    if de.is_dir
    then delete_entry_if_unchanged w latest
    else if not (latest.size == de.size)
    then mark_remote_only w latest de []
    else judge_digest w latest de d

-- A path that has no result counts as one that is not on the machine.
unfoldable pub result_of : Text → List (Text × CacheValidationResult) → CacheValidationResult
result_of p results = elim (Map.lookup p results) [
  | none ↦ record { remote = none; digest = none }
  | some res ↦ res
]

-- One candidate of applyCacheValidationResults.
unfoldable pub apply_result : World → List (Text × CacheValidationResult) → Entry → World
unfolding judge_remote result_of is_candidate
apply_result w results candidate = elim (entry_at w.store candidate.path) [
  | none ↦ w
  | some latest ↦
      let res = result_of candidate.path results in
      if not (sync_eq latest.sync synced)
        || not (text_eq latest.cache_path candidate.cache_path)
        || not (
            cache_eq latest.cache_state cache_validating || cache_eq latest.cache_state cache_blank)
      then w
      else judge_remote w latest res.digest res.remote
]

-- The loop, with what others write before each candidate.
unfoldable pub apply_cache_validation_results :
    World → List (Text × CacheValidationResult) → List Entry → List (List Op) → World
unfolding apply_result
apply_cache_validation_results w results [] gaps = w
apply_cache_validation_results w results (e ∷ es) gaps =
    apply_cache_validation_results (apply_result (others w (first_gap gaps)) results e) results es
      (later_gaps gaps)
