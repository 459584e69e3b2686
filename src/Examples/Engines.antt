-- ===== src/Examples/Engines.antt =====
-- The theorems on the sync engine, applied to the sample store.
use makera_cnc_controller.Base.{
  ◌≡◌, ◌⊎◌, refl, Option, none, some, List, [], ◌∷◌, Bool, true, if◌then◌else◌,
}
use makera_cnc_controller.Base.Text.{Text, text_eq}
use makera_cnc_controller.Base.Map
use makera_cnc_controller.Store.{
  Entry, Job, no_job, queued, job_upload, job_delete, job_rename, pending_upload, deleting,
}
use makera_cnc_controller.Store.Batch.{
  find_job, set_entry_sync_if, delete_entry_if_sync, put_entry, normalize_new_entry,
}
use makera_cnc_controller.Store.Commit.{World, flush_locked, publish_all}
use makera_cnc_controller.Store.Commit.Opening.{save}
use makera_cnc_controller.Store.Ops.{Op, puts_entry, apply, apply_all}
use makera_cnc_controller.Store.Transactions.{run_ops}
use makera_cnc_controller.Engine.{
  Engine, seconds, backoff, should_attempt, Fault, Reply, served, Attempt, ran,
}
use makera_cnc_controller.Engine.Execute.{execute_delete, others, deleting_states}
use makera_cnc_controller.Engine.Record.{run_job}
use makera_cnc_controller.Engine.Drain.{drain_loop, held, waiting, attempted}
use makera_cnc_controller.Engine.Ordering.{KeepsBehind, share_path, drain-KeepsBehind}
use makera_cnc_controller.Engine.Strict.{IsStrict, drain-IsStrict, drain_overtakes_rename}
use makera_cnc_controller.Engine.Settled.{Overtaken, started, settled_state, run_job_settles}
use makera_cnc_controller.Engine.Stale.{unless_deleting, delete_spares_replacement}
use makera_cnc_controller.Base.{map}
use makera_cnc_controller.Base.Text.{codes}
use makera_cnc_controller.Store.Jobs.{update_job, write_job}
use makera_cnc_controller.Engine.Drain.{recover_loop, recover_interrupted_jobs}
use makera_cnc_controller.Engine.Recovery.{restarted, recover_interrupted_jobs-restarted}
use makera_cnc_controller.Examples.{sample_store}
use makera_cnc_controller.Examples.Stores.{sample-WellFormed}
use makera_cnc_controller.Examples.{part, plate, part_entry, plate_entry, delete_job, sample_world}

abbrev defaults : Engine
defaults = record { base_backoff = seconds 2; max_backoff = seconds 60; max_attempts = 8 }

no_text : Fault → Text
no_text f = []

every_path : Text → Bool
every_path p = true

-- A job that is attempted at once, one that waits for its backoff, and one with a destination.
abbrev waiting_job : Job
waiting_job = record no_job {
  id = 4;
  kind = job_upload;
  path = part;
  size = 3;
  state = queued;
  attempts = 1;
  updated_at = 99;
}

abbrev moving_job : Job
moving_job = record no_job {
  id = 5;
  kind = job_rename;
  path = part;
  dest_path = plate;
  state = queued;
}

abbrev plate_job : Job
plate_job = record no_job { id = 6; kind = job_delete; path = plate; state = queued }

abbrev run_one : World → Job → Reply → World × Attempt
run_one = run_job no_text every_path every_path defaults

abbrev replies : List Reply
replies = served [] none ∷ []

drain-KeepsBehind_example :
    KeepsBehind
      (drain_loop run_one defaults sample_world []
        (waiting_job ∷ delete_job ∷ plate_job ∷ [])
        replies).1
drain-KeepsBehind_example =
    drain-KeepsBehind run_one defaults sample_world [] (waiting_job ∷ delete_job ∷ plate_job ∷ [])
      replies

drain-IsStrict_example :
    IsStrict
      (drain_loop run_one defaults sample_world []
        (waiting_job ∷ delete_job ∷ plate_job ∷ [])
        replies).1
unfolding text_eq
drain-IsStrict_example =
    drain-IsStrict run_one defaults sample_world [] (waiting_job ∷ delete_job ∷ plate_job ∷ [])
      replies (refl, (refl, (refl, tt)))

drain_overtakes_rename_example :
    (share_path moving_job plate_job ≡ true)
    × ((drain_loop run_one defaults sample_world []
          (waiting_job ∷ moving_job ∷ plate_job ∷ [])
          replies).1
        ≡ (waiting_job, waiting)
          ∷ (moving_job, held)
          ∷ (plate_job, attempted (run_one sample_world plate_job (served [] none)).1)
          ∷ [])
unfolding text_eq should_attempt backoff
drain_overtakes_rename_example =
    drain_overtakes_rename run_one defaults sample_world waiting_job moving_job plate_job replies
      refl refl refl refl refl refl refl refl

run_job_settles_example :
    let r = run_one sample_world delete_job (served [] none) in
    (f : Option Fault) × (r.1 ≡ ran f)
    × (k : Job) × (find_job 1 r.0.store.jobs ≡ some k)
    × (k.state ≡ settled_state defaults delete_job f)
    × ((◌≡◌ {A = Option Text} none none)
        ⊎ ((g : Fault) × (f ≡ some g))
        ⊎ Overtaken no_text defaults delete_job every_path every_path
            (started no_text defaults delete_job every_path every_path sample_world))
unfolding find_job
run_job_settles_example =
    run_job_settles no_text defaults delete_job every_path every_path sample_world delete_job []
      none refl refl refl tt

-- While the machine deletes the file, a replacement is dropped on its path.
abbrev replacement : List Op
replacement = puts_entry (record part_entry { sync = pending_upload }) ∷ []

delete_spares_replacement_example :
    let marked =
      (save sample_world (λ b. set_entry_sync_if b part deleting [] deleting_states)).0 in
    let seen = (others marked replacement).store.entries in
    Map.lookup part (execute_delete sample_world delete_job replacement none).0.store.entries
    ≡ (if text_eq part part then unless_deleting (Map.lookup part seen) else Map.lookup part seen)
unfolding execute_delete save set_entry_sync_if Map.lookup text_eq flush_locked delete_entry_if_sync
    run_ops apply_all apply put_entry publish_all Map.insert normalize_new_entry
delete_spares_replacement_example =
    delete_spares_replacement sample_world delete_job replacement part refl

abbrev claimed : Entry
claimed = record plate_entry { sync = pending_upload; updated_at = 100 }

recover_interrupted_jobs-restarted_example :
    (recover_interrupted_jobs sample_world (codes "interrupted")).0.store.jobs
    ≡ map (restarted (codes "interrupted") 100) sample_store.jobs
unfolding recover_interrupted_jobs recover_loop update_job write_job find_job save flush_locked
    text_eq
recover_interrupted_jobs-restarted_example =
    recover_interrupted_jobs-restarted sample_world (codes "interrupted") sample-WellFormed refl
