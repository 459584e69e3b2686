-- ===== src/Service/Recording.antt =====
-- internal/service/service.go: the batch of Upload, and a batch that succeeds or fails.
use makera_cnc_controller.Base.{ℕ, ◌≡◌, refl, Bool, true, some, List, [], ◌∷◌, ◌++◌, arith, keep_if}
use makera_cnc_controller.Base.Text.{Text, text_eq_refl}
use makera_cnc_controller.Base.Map
use makera_cnc_controller.Store.{
  Entry, Job, no_job, job_upload, queued, job_delete, ok, err, StoreError,
}
use makera_cnc_controller.Store.Batch.{
  Batch, put_entry, discard_jobs, supersede_queued_uploads, retire_where, retire,
  normalize_new_entry, queued_upload_of, matching_queued_or_failed,
}
use makera_cnc_controller.Store.Jobs.{enqueue}
use makera_cnc_controller.Store.Durability.{batch_rollback}
use makera_cnc_controller.Store.Commit.{World, new_batch}
use makera_cnc_controller.Store.Commit.Opening.{save}
use makera_cnc_controller.Service.Deleting.{batch-ok}
use makera_cnc_controller.Service.Files.{uploaded_entry, upload_batch}

pub upload_batch-entry :
    (md5_hex : Text → Text) (cache_name_for : Text → Text) (remote content : Text) (b : Batch)
    → let after = (upload_batch md5_hex cache_name_for remote content b).0.store in
      Map.lookup remote after.entries
      ≡ some
          (record (normalize_new_entry
            (uploaded_entry md5_hex cache_name_for remote content b.now)) { updated_at = b.now })
unfolding upload_batch put_entry discard_jobs supersede_queued_uploads retire_where enqueue
    uploaded_entry
upload_batch-entry md5_hex cache_name_for remote content b =
    let e : Entry = uploaded_entry md5_hex cache_name_for remote content b.now in
    ground (
      arith,
      text_eq_refl remote,
      Map.lookup-insert {V = Entry} remote remote
          (record (normalize_new_entry e) { updated_at = b.now }) b.store.entries,
    )

keep-retired :
    (now : ℕ) (path : Text) (js : List Job)
    → keep_if (queued_upload_of path) (retire now (queued_upload_of path) js) ≡ []
unfolding retire queued_upload_of
keep-retired now path [] = refl
keep-retired now path (j ∷ js) = ground (arith, keep-retired now path js)

keep-snoc :
    (p : Job → Bool) (js : List Job) (j : Job)
    → keep_if p js ≡ []
    → p j ≡ true
    → keep_if p (js ++ (j ∷ [])) ≡ j ∷ []
keep-snoc p [] j e h = ground arith
keep-snoc p (k ∷ js) j e h = ground (arith, keep-snoc p js j)

-- The upload job, with the id that the store gives it.
abbrev pub upload_job : ℕ → ℕ → Entry → Job
upload_job i now e = record no_job {
  id = i;
  kind = job_upload;
  path = e.path;
  cache_path = e.cache_path;
  md5 = e.md5;
  size = e.size;
  state = queued;
  created_at = now;
  updated_at = now;
}

pub upload_batch-jobs :
    (md5_hex : Text → Text) (cache_name_for : Text → Text) (remote content : Text) (b : Batch)
    → keep_if
        (queued_upload_of remote)
        (upload_batch md5_hex cache_name_for remote content b).0.store.jobs
      ≡ upload_job b.store.next_job b.now
          (uploaded_entry md5_hex cache_name_for remote content b.now)
        ∷ []
unfolding upload_batch put_entry discard_jobs supersede_queued_uploads retire_where enqueue
    uploaded_entry queued_upload_of
upload_batch-jobs md5_hex cache_name_for remote content b =
    let e : Entry = uploaded_entry md5_hex cache_name_for remote content b.now in
    let js = retire b.now (matching_queued_or_failed remote (job_delete ∷ [])) b.store.jobs in
    keep-snoc (queued_upload_of remote) (retire b.now (queued_upload_of remote) js)
      (upload_job b.store.next_job b.now e) (keep-retired b.now remote js)
      (ground (arith, text_eq_refl remote))

-- The store and the result of the batch of an upload.
pub save-ok :
    {A : Type 0} (w : World) (f : Batch → Batch × A) (a : A)
    → (save w f).1 ≡ ok a
    → ((f (new_batch w)).1 ≡ a)
      × ((save w f).0.store.entries ≡ (f (new_batch w)).0.store.entries)
      × ((save w f).0.store.jobs ≡ (f (new_batch w)).0.store.jobs)
unfolding save
save-ok w f a h = ground (arith, batch-ok w (λ b. ((f b).0, ok (f b).1)) a)

pub save-failed :
    {A : Type 0} (w : World) (f : Batch → Batch × A) (x : StoreError)
    → (save w f).1 ≡ err x
    → (save w f).0.store ≡ w.store
unfolding save
save-failed w f x h = (batch_rollback w (λ b. ((f b).0, ok (f b).1)) x h).0

pub batch_result :
    (md5_hex : Text → Text) (cache_name_for : Text → Text) (remote content : Text) (b : Batch)
    → (upload_batch md5_hex cache_name_for remote content b).1
      ≡ uploaded_entry md5_hex cache_name_for remote content b.now
unfolding upload_batch
batch_result md5_hex cache_name_for remote content b = refl
