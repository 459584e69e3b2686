-- ===== src/Examples/Files.antt =====
-- The theorems on the operator's file operations, the reconciliation and the start-up, applied to the sample store.
use makera_cnc_controller.Base.{
  ◌≡◌, refl, none, some, List, [], ◌∷◌, Bool, true, false, arith, keep_if, if◌then◌else◌,
}
use makera_cnc_controller.Base.Text.{Text, codes, text_eq}
use makera_cnc_controller.Base.Map
use makera_cnc_controller.Store.{
  Entry, synced, sync_eq, cache_ready, cache_validating, pending_upload, Result, refused,
  file_failed,
}
use makera_cnc_controller.Store.Batch.{normalize_new_entry, queued_upload_of}
use makera_cnc_controller.Store.Commit.{World, flush_locked}
use makera_cnc_controller.Store.Commit.Opening.{save}
use makera_cnc_controller.Engine.Reconcile.{is_settled, digest}
use makera_cnc_controller.Engine.Reconcile.Listing.{fold_listing}
use makera_cnc_controller.Engine.Reconcile.Sparing.{fold_listing_spares}
use makera_cnc_controller.Engine.Startup.{
  prepare_startup_cache_validation, apply_result, CacheValidationResult, result_of,
}
use makera_cnc_controller.Engine.Startup.Conservative.{is_conservative, startup_conservative}
use makera_cnc_controller.Engine.Startup.Confirmed.{confirms, apply_result_confirmed}
use makera_cnc_controller.Protocol.Listing.{DirEntry}
use makera_cnc_controller.Service.Files.{FileIo, upload, uploaded_entry}
use makera_cnc_controller.Service.Uploading.{upload_stored, upload_failed}
use makera_cnc_controller.Service.Recording.{upload_job}
use makera_cnc_controller.Store.{remote_only}
use makera_cnc_controller.Store.Batch.{
  put_entry, discard_jobs, supersede_queued_uploads, find_job, get_entry,
}
use makera_cnc_controller.Store.Jobs.{enqueue, update_job, write_job, replace_job}
use makera_cnc_controller.Store.Commit.{batch, publish_all, publish_locked}
use makera_cnc_controller.Store.Methods.{put_entry_saved, entry_at}
use makera_cnc_controller.Store.Catalog.{list_entries, sort_by_path, insert_by_path, text_less}
use makera_cnc_controller.Engine.Drain.{recover_interrupted_jobs, recover_loop}
use makera_cnc_controller.Engine.Startup.{prepare_loop, prepared, removed_file}
use makera_cnc_controller.Engine.Reconcile.{
  mark_cache_ready, cache_ready_entry, if_unchanged, same_reconcile_entry,
}
use makera_cnc_controller.Service.Files.{backup_cache_target, rename_into_cache, upload_batch}
use makera_cnc_controller.Examples.{
  part, plate, part_entry, plate_entry, sample_world, sample_store,
}

-- The machine lists the plate with another size, and the part no more.
abbrev listing : List (Text × DirEntry)
listing = (plate, record { name = codes "plate.nc"; is_dir = false; size = 8; mtime = 1 }) ∷ []

fold_listing_spares_example :
    Map.lookup part (fold_listing sample_world listing [] []).store.entries ≡ some part_entry
unfolding is_settled Map.lookup text_eq
fold_listing_spares_example =
    fold_listing_spares sample_world listing [] [] part part_entry refl tt tt refl

nothing_missing : List Text → Text → Bool
nothing_missing removed file = false

abbrev started : World × Result (Unit {0})
started = prepare_startup_cache_validation nothing_missing sample_world (codes "restarted")

-- The plate has no bytes in the cache.
abbrev plate_started : Entry
plate_started = record plate_entry { sync = remote_only; updated_at = 100 }

startup_conservative_example : is_conservative plate_started ≡ true
unfolding prepare_startup_cache_validation prepare_loop prepared removed_file
    recover_interrupted_jobs recover_loop save batch flush_locked list_entries sort_by_path
    insert_by_path text_less put_entry_saved put_entry normalize_new_entry text_eq Map.insert
    Map.lookup find_job update_job write_job replace_job publish_all publish_locked
startup_conservative_example =
    startup_conservative nothing_missing sample_world (codes "restarted") plate plate_started
      (refl, (refl, tt)) refl refl

abbrev saved_entry : Entry
saved_entry = record plate_entry {
  cache_path = codes "/cache/2";
  cache_state = cache_validating;
  md5 = codes "aa";
}

abbrev saved_world : World
saved_world = record sample_world {
  store = record sample_store { entries = (plate, saved_entry) ∷ [] };
}

abbrev confirming_results : List (Text × CacheValidationResult)
confirming_results =
    (
      plate,
      record {
        remote = some (record { name = codes "plate.nc"; is_dir = false; size = 7; mtime = 1 });
        digest = some (digest (codes "aa"));
      },
    )
    ∷ []

apply_result_confirmed_example :
    (plate ≡ plate)
    × (sync_eq saved_entry.sync synced ≡ true)
    × (text_eq saved_entry.cache_path saved_entry.cache_path ≡ true)
    × (confirms (result_of plate confirming_results) saved_entry ≡ true)
unfolding apply_result result_of entry_at mark_cache_ready cache_ready_entry if_unchanged
    same_reconcile_entry save batch flush_locked get_entry put_entry normalize_new_entry text_eq
    Map.insert Map.lookup publish_all publish_locked
apply_result_confirmed_example =
    apply_result_confirmed saved_world confirming_results saved_entry plate saved_entry
      (record saved_entry {
        cache_state = cache_ready;
        cache_checked_at = 100;
        mtime = 1;
        updated_at = 100;
      })
      ((refl, λ h. ground arith), tt) refl refl refl refl

-- The part waits for its upload.
abbrev uploading_world : World
uploading_world = record sample_world {
  store = record sample_store {
    entries = (part, record part_entry { sync = pending_upload }) ∷ [];
  };
}

no_digest_text : Text → Text
no_digest_text content = codes "md5"

in_cache_dir : Text → Text
in_cache_dir remote = b'/' ∷ remote

abbrev fine_io : FileIo
fine_io = record {
  stage_ok = true;
  stat_ok = true;
  temp_ok = true;
  backup_ok = true;
  rename_ok = true;
  restore_ok = true;
  drop_target_ok = true;
  drop_backup_ok = true;
  drop_staged_ok = true;
  backup = codes "backup";
}

abbrev new_part : Entry
new_part = uploaded_entry no_digest_text in_cache_dir part (codes "G0 X2") 100

upload_stored_example :
    let after =
      (upload no_digest_text in_cache_dir fine_io sample_world []
        (codes "tmp")
        part
        (codes "G0 X2")).0 in
    (new_part ≡ new_part)
    × (Map.lookup (in_cache_dir part) after.1
        ≡ (if text_eq (in_cache_dir part) (in_cache_dir part) then some (codes "G0 X2") else none))
    × (Map.lookup part after.0.store.entries
        ≡ some (record (normalize_new_entry new_part) { updated_at = 100 }))
    × (keep_if (queued_upload_of part) after.0.store.jobs ≡ upload_job 4 100 new_part ∷ [])
unfolding upload backup_cache_target rename_into_cache save batch flush_locked text_eq Map.lookup
    Map.insert in_cache_dir upload_batch enqueue supersede_queued_uploads discard_jobs put_entry
upload_stored_example =
    upload_stored no_digest_text in_cache_dir fine_io sample_world [] (codes "tmp") part
      (codes "G0 X2") new_part (in_cache_dir part) refl (refl, refl) refl refl refl refl

upload_failed_example :
    let after =
      (upload no_digest_text in_cache_dir
        (record fine_io { rename_ok = false })
        sample_world
        []
        (codes "tmp")
        part
        (codes "G0 X2")).0 in
    (after.0.store ≡ sample_store) × (Map.lookup (in_cache_dir part) after.1 ≡ none)
unfolding upload backup_cache_target rename_into_cache text_eq Map.lookup Map.insert in_cache_dir
upload_failed_example =
    upload_failed no_digest_text in_cache_dir (record fine_io { rename_ok = false }) sample_world []
      (codes "tmp") part (codes "G0 X2") (refused file_failed) (in_cache_dir part) refl (refl, refl)
      refl refl refl refl refl
