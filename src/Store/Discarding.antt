-- ===== src/Store/Discarding.antt =====
-- Desired changes that are given up: DiscardEntry, DiscardJobs and SupersedeQueuedUploads.
use makera_cnc_controller.Base.{
  ℕ, ◌≡◌, refl, Bool, false, ◌&&◌, ◌||◌, none, List, [], ◌∷◌, map, arith, if◌then◌else◌, is_some,
  length, any,
}
use makera_cnc_controller.Base.Text.{Text, text_eq_refl}
use makera_cnc_controller.Base.Map
use makera_cnc_controller.Store.{JobKind, queued, failed, state_eq, Job}
use makera_cnc_controller.Store.Batch.{
  Batch, matching_queued_or_failed, retired, retire, retired_jobs, discard_entry, queued_upload_of,
  supersede_queued_uploads,
}
use makera_cnc_controller.Store.Pruning.{count_if}

-- A job that is marked done passes no test that asks for a queued or failed job.
abbrev AsksLive : (Job → Bool) → Type 0
AsksLive test =
    (j : Job) → (state_eq j.state queued || state_eq j.state failed) ≡ false → test j ≡ false

retire_leaves_none :
    (now : ℕ) (test : Job → Bool) (js : List Job)
    → AsksLive test
    → any test (retire now test js) ≡ false
unfolding retire
retire_leaves_none now test [] live = refl
retire_leaves_none now test (j ∷ js) live =
    ground (arith, retire_leaves_none now test js live, live (retired now j))

length-retired_jobs :
    (now : ℕ) (test : Job → Bool) (js : List Job)
    → length (retired_jobs now test js) ≡ count_if test js
unfolding retired_jobs
length-retired_jobs now test [] = refl
length-retired_jobs now test (j ∷ js) = ground (arith, length-retired_jobs now test js)

retire-ids :
    (now : ℕ) (test : Job → Bool) (js : List Job)
    → map (λ (j : Job). j.id) (retire now test js) ≡ map (λ (j : Job). j.id) js
unfolding retire
retire-ids now test [] = refl
retire-ids now test (j ∷ js) = ground (arith, retire-ids now test js)

matching-AsksLive : (p : Text) (kinds : List JobKind) → AsksLive (matching_queued_or_failed p kinds)
unfolding matching_queued_or_failed
matching-AsksLive p kinds j h = ground arith

upload-AsksLive : (p : Text) → AsksLive (queued_upload_of p)
unfolding queued_upload_of
upload-AsksLive p j h = ground arith

-- DiscardEntry returns the entry at the path, if any, and takes it out of the catalog with every queued or
-- failed job of the kinds given on its path; where there is no entry, nothing changes.
pub discard_entry_clears :
    (b : Batch) (p : Text) (kinds : List JobKind)
    → let (b', r) = discard_entry b p kinds in
      (r ≡ Map.lookup p b.store.entries)
      × ((if is_some r then b else b') ≡ b)
      × (Map.lookup p b'.store.entries ≡ none)
      × (is_some r && any (matching_queued_or_failed p kinds) b'.store.jobs ≡ false)
unfolding discard_entry
discard_entry_clears b p kinds = ground (
  arith,
  Map.lookup-delete p p b.store.entries,
  text_eq_refl p,
  retire_leaves_none b.now (matching_queued_or_failed p kinds) b.store.jobs
      (matching-AsksLive p kinds),
)

-- Superseding leaves no queued or failed upload of the path, reports how many there were, and takes no
-- job out of the queue.
pub supersede_clears :
    (b : Batch) (p : Text)
    → let (b', n) = supersede_queued_uploads b p in
      (any (queued_upload_of p) b'.store.jobs ≡ false)
      × (n ≡ count_if (queued_upload_of p) b.store.jobs)
      × (map (λ (j : Job). j.id) b'.store.jobs ≡ map (λ (j : Job). j.id) b.store.jobs)
unfolding supersede_queued_uploads
supersede_clears b p = (
  retire_leaves_none b.now (queued_upload_of p) b.store.jobs (upload-AsksLive p),
  length-retired_jobs b.now (queued_upload_of p) b.store.jobs,
  retire-ids b.now (queued_upload_of p) b.store.jobs,
)
