-- ===== src/Examples.antt =====
-- Data on which the theorems are applied: a small catalog with its queue, and the witnesses.
mod Stores
mod Engines
mod Frames
mod Sessions
mod Relays
mod Files
mod Transfers
mod Commands
use makera_cnc_controller.Base.{ℕ, Option, none, some, List, [], ◌∷◌, Bool, true, false}
use makera_cnc_controller.Base.Text.{Text, codes}
use makera_cnc_controller.Store.{
  Entry, bare_entry, synced, pending_delete, cache_none, cache_ready, Job, no_job, queued, running,
  failed, job_upload, job_delete, Store,
}
use makera_cnc_controller.Store.Batch.{Batch}
use makera_cnc_controller.Store.Commit.{persist, Disk, Io, World, new_batch}

abbrev pub part : Text
part = codes "/sd/gcodes/part.nc"

abbrev pub plate : Text
plate = codes "/sd/gcodes/plate.nc"

abbrev pub part_entry : Entry
part_entry = record (bare_entry part) {
  size = 10;
  cache_path = codes "/cache/1";
  cache_state = cache_ready;
  sync = pending_delete;
}

abbrev pub plate_entry : Entry
plate_entry = record (bare_entry plate) { size = 7; cache_state = cache_none; sync = synced }

abbrev pub delete_job : Job
delete_job = record no_job {
  id = 1;
  kind = job_delete;
  path = part;
  state = queued;
  created_at = 5;
}

abbrev pub failed_job : Job
failed_job = record no_job {
  id = 2;
  kind = job_upload;
  path = part;
  size = 10;
  state = failed;
  attempts = 8;
}

abbrev pub running_job : Job
running_job = record no_job { id = 3; kind = job_upload; path = plate; size = 7; state = running }

abbrev pub sample_store : Store
sample_store = record {
  path = codes "/data/store.json";
  entries = (part, part_entry) ∷ (plate, plate_entry) ∷ [];
  jobs = delete_job ∷ failed_job ∷ running_job ∷ [];
  next_job = 4;
  active = part;
  subs = [];
  next_sub = 0;
}

abbrev pub sample_disk : Disk
sample_disk = record { file = some (persist sample_store); tmp = none }

abbrev pub sample_world : World
sample_world = record { store = sample_store; disk = sample_disk; clock = 100; ios = [] }

-- The rename fails, and the temporary file is removed.
abbrev pub no_rename : Io
no_rename = record {
  marshal_ok = true;
  open_ok = true;
  write_ok = true;
  sync_ok = true;
  close_ok = true;
  rename_ok = false;
  remove_ok = true;
}

abbrev pub sample_batch : Batch
sample_batch = new_batch sample_world
