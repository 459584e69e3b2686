-- ===== src/Service/Deleting.antt =====
-- internal/service/service.go: what Delete leaves in the catalog and the queue.
use makera_cnc_controller.Base.{
  ◌≡◌, refl, sym, ap, Bool, true, false, ◌||◌, ◌&&◌, Option, none, some, List, [], ◌∷◌, ◌++◌, ◌∙◌,
  arith, if◌then◌else◌, any, ◌⊎◌, inr, is_some,
}
use makera_cnc_controller.Base.Text.{Text, text_eq, text_eq_refl}
use makera_cnc_controller.Base.Map
use makera_cnc_controller.Store.{
  sync_eq, pending_delete, Entry, Job, no_job, job_delete, kind_eq, queued, failed, state_eq,
  Result, ok,
}
use makera_cnc_controller.Store.Batch.{Batch, get_entry, kind_in, set_entry_sync, write_sync}
use makera_cnc_controller.Store.Jobs.{enqueue}
use makera_cnc_controller.Store.Ops.{Op}
use makera_cnc_controller.Store.Commit.{World, batch, new_batch}
use makera_cnc_controller.Store.Transactions.{publish_all-eq}
use makera_cnc_controller.Engine.Execute.{others}
use makera_cnc_controller.Service.{
  path_kinds, should_discard_local_entry, discard_batch, delete_batch, delete_remote,
}

-- A batch that succeeds leaves its catalog and its queue.
pub batch-ok :
    {A : Type 0} (w : World) (f : Batch → Batch × Result A) (a : A)
    → (batch w f).1 ≡ ok a
    → ((f (new_batch w)).1 ≡ ok a)
      × ((batch w f).0.store.entries ≡ (f (new_batch w)).0.store.entries)
      × ((batch w f).0.store.jobs ≡ (f (new_batch w)).0.store.jobs)
unfolding batch
batch-ok w f a h =
    ground (arith, publish_all-eq (f (new_batch w)).0.store (f (new_batch w)).0.events)

-- A job of the path that may still run: one that is queued, or failed and could be retried.
unfoldable pub is_open : Text → Job → Bool
is_open path j =
    text_eq j.path path
    && kind_in j.kind path_kinds
    && (state_eq j.state queued || state_eq j.state failed)

any-snoc : (p : Job → Bool) (js : List Job) (j : Job) → p j ≡ true → any p (js ++ (j ∷ [])) ≡ true
any-snoc p [] j h = ground arith
any-snoc p (k ∷ js) j h = ground (arith, any-snoc p js j h)

-- A queued machine delete of the path.
unfoldable pub deletes : Text → Job → Bool
deletes path j = text_eq j.path path && kind_eq j.kind job_delete && state_eq j.state queued

abbrev pub is_pending_delete : Option Entry → Bool
is_pending_delete none = false
is_pending_delete (some e) = sync_eq e.sync pending_delete

-- The catalog once an entry is marked, if there is one.
marked-lookup :
    (path : Text) (b : Batch) (found : Option Entry)
    → Map.lookup path b.store.entries ≡ found
    → (is_some (set_entry_sync b path pending_delete []).1 ≡ is_some found)
      × (is_pending_delete
              (Map.lookup path (set_entry_sync b path pending_delete []).0.store.entries)
            ≡ is_some found
          ⊎ is_some found ≡ false)
      × ((set_entry_sync b path pending_delete []).0.store.jobs ≡ b.store.jobs)
      × ((set_entry_sync b path pending_delete []).0.store.next_job ≡ b.store.next_job)
      × ((set_entry_sync b path pending_delete []).0.now ≡ b.now)
unfolding set_entry_sync write_sync
marked-lookup path b none eq = rw (eq, set_entry_sync) (refl, inr refl, refl, refl, refl)
marked-lookup path b (some x) eq =
    let cp : Entry = record x { sync = pending_delete; error_text = []; updated_at = b.now } in
    rw (eq, set_entry_sync)
      (ground
        (arith, text_eq_refl path, Map.lookup-insert {V = Entry} path path cp b.store.entries))

delete_batch-queued :
    (path : Text) (b : Batch) (e : Option Entry)
    → (delete_batch path b).1 ≡ ok e
    → (is_pending_delete (Map.lookup path (delete_batch path b).0.store.entries) ≡ true)
      × (any (deletes path) (delete_batch path b).0.store.jobs ≡ true)
unfolding delete_batch get_entry enqueue deletes
delete_batch-queued path b e h =
    let job : Job = record no_job {
      kind = job_delete;
      path = path;
      id = b.store.next_job;
      state = queued;
      created_at = b.now;
      updated_at = b.now;
    } in
    ground (
      arith,
      text_eq_refl path,
      any-snoc (deletes path) b.store.jobs job,
      marked-lookup path b (Map.lookup path b.store.entries) refl,
    )

delete_remote-batch :
    (w : World) (path : Text) (gap : List Op) (e : Entry)
    → Map.lookup path w.store.entries ≡ some e
    → delete_remote w path gap ≡ (
        if should_discard_local_entry w.store path e
        then batch (others w gap) (discard_batch path)
        else batch (others w gap) (delete_batch path))
unfolding delete_remote
delete_remote-batch w path gap e held = rw (held, delete_remote) refl

-- Delete of any other entry leaves the entry as pending_delete and a queued machine delete of its path when it
-- succeeds.
pub delete_queues :
    (w : World) (path : Text) (gap : List Op) (e : Entry) (r : Option Entry)
    → Map.lookup path w.store.entries ≡ some e
    → should_discard_local_entry w.store path e ≡ false
    → (delete_remote w path gap).1 ≡ ok r
    → (is_pending_delete (Map.lookup path (delete_remote w path gap).0.store.entries) ≡ true)
      × (any (deletes path) (delete_remote w path gap).0.store.jobs ≡ true)
delete_queues w path gap e r held local fine =
    let v = others w gap in
    let same : delete_remote w path gap ≡ batch v (delete_batch path) =
      ground (arith, delete_remote-batch w path gap e held) in
    let done =
      batch-ok v (delete_batch path) r
        (sym (ap (λ (t : World × Result (Option Entry)). t.1) same) ∙ fine) in
    rw same (rw (done.1, done.2) (delete_batch-queued path (new_batch v) r done.0))
