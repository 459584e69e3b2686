-- ===== src/Engine/Stale.antt =====
-- What a job that ends may do to an entry that others changed while the machine worked.
use makera_cnc_controller.Base.{
  ◌≡◌, refl, ap, ◌∙◌, ◌⊎◌, inl, inr, true, false, Option, none, some, List, [], arith,
  if◌then◌else◌,
}
use makera_cnc_controller.Base.Text.{Text, text_eq, text_eq_iff}
use makera_cnc_controller.Base.Map
use makera_cnc_controller.Base.Map.{lookup-insert, lookup-delete}
use makera_cnc_controller.Store.{deleting, Entry, Job, StoreError, Result, ok, err, sync_state_in}
use makera_cnc_controller.Store.Batch.{
  Batch, get_entry, set_entry_sync_if, drop_entry, delete_entry, delete_entry_if_sync,
}
use makera_cnc_controller.Store.Ops.{Op}
use makera_cnc_controller.Store.Commit.{World, new_batch, batch}
use makera_cnc_controller.Store.Commit.Opening.{save}
use makera_cnc_controller.Store.Transactions.{publish_all-eq}
use makera_cnc_controller.Engine.Execute.{
  finish, removed_by_machine, others, execute_delete, execute_rename, move_entry, deleting_states,
  has_local_intent,
}

-- A transaction that succeeds leaves the catalog that its call made.
save-entries :
    {A : Type 0} (w : World) (f : Batch → Batch × A)
    → (finish (save w f)).1 ≡ none
    → (finish (save w f)).0.store.entries ≡ (f (new_batch w)).0.store.entries
unfolding save batch
save-entries w f h =
    ground (arith, publish_all-eq (f (new_batch w)).0.store (f (new_batch w)).0.events)

-- The entry that a finished delete leaves of the one found at its path.
abbrev pub unless_deleting : Option Entry → Option Entry
unless_deleting none = none
unless_deleting (some e) = if sync_state_in e.sync deleting_states then none else some e

delete_if_sync-lookup :
    (b : Batch) (p q : Text)
    → Map.lookup q (delete_entry_if_sync b p deleting_states).0.store.entries ≡ (
        if text_eq p q
        then unless_deleting (Map.lookup p b.store.entries)
        else Map.lookup q b.store.entries)
unfolding delete_entry_if_sync
delete_if_sync-lookup b p q = ground (arith, lookup-delete p q b.store.entries, text_eq_iff p q)

removed-lookup :
    (w : World) (job : Job) (ops : List Op) (q : Text)
    → (removed_by_machine w job ops none).1 ≡ none
    → let seen = (others w ops).store.entries in
      Map.lookup q (removed_by_machine w job ops none).0.store.entries ≡ (
        if text_eq job.path q
        then unless_deleting (Map.lookup job.path seen)
        else Map.lookup q seen)
unfolding removed_by_machine
removed-lookup w job ops q h =
    let f = λ (b : Batch). delete_entry_if_sync b job.path deleting_states in
    ap (Map.lookup q) (save-entries (others w ops) f h)
    ∙ delete_if_sync-lookup (new_batch (others w ops)) job.path q

Result-cases :
    {A : Type 0} (r : Result A) → ((a : A) × (r ≡ ok a)) ⊎ ((e : StoreError) × (r ≡ err e))
Result-cases (ok a) = inl (a, refl)
Result-cases (err e) = inr (e, refl)

-- A delete that ends well takes the entry at its path out of the catalog only if that entry is still
-- pending deletion or deleting once the machine has removed the file: a replacement that came in the
-- meantime stays as it is, and so does every other entry.
pub delete_spares_replacement :
    (w : World) (job : Job) (ops : List Op) (q : Text)
    → (execute_delete w job ops none).1 ≡ none
    → let marked = (save w (λ b. set_entry_sync_if b job.path deleting [] deleting_states)).0 in
      let seen = (others marked ops).store.entries in
      Map.lookup q (execute_delete w job ops none).0.store.entries ≡ (
        if text_eq job.path q
        then unless_deleting (Map.lookup job.path seen)
        else Map.lookup q seen)
unfolding execute_delete
delete_spares_replacement w job ops q h =
    let marking = save w (λ b. set_entry_sync_if b job.path deleting [] deleting_states) in
    elim (Result-cases marking.1) [
      | inl (a, e) ↦
          rw (e, execute_delete) (removed-lookup marking.0 job ops q (rw (e, execute_delete) at h))
      | inr (x, e) ↦ absurd (ended e)
    ]
  where
    ended :
        {x : StoreError}
        → (save w (λ b. set_entry_sync_if b job.path deleting [] deleting_states)).1 ≡ err x
        → ⊥
    ended e = cc (rw (e, execute_delete) at h)

-- What a rename leaves at the two paths, for what stands there once the machine is done.
move_entry-claimed :
    (job : Job) (b : Batch) (d : Entry)
    → text_eq job.path job.dest_path ≡ false
    → Map.lookup job.dest_path b.store.entries ≡ some d
    → has_local_intent d.sync ≡ true
    → Map.lookup job.dest_path (move_entry job b).store.entries ≡ some d
unfolding move_entry get_entry delete_entry drop_entry
move_entry-claimed job b d ne h c =
    ground (arith, lookup-delete job.path job.dest_path b.store.entries)

-- A rename that ends well leaves the entry at its destination as it is, if that entry has changes of its
-- own to bring to the machine.
pub rename_spares_claimed :
    (w : World) (job : Job) (ops : List Op) (d : Entry)
    → (execute_rename w job ops none).1 ≡ none
    → text_eq job.path job.dest_path ≡ false
    → Map.lookup job.dest_path (others w ops).store.entries ≡ some d
    → has_local_intent d.sync ≡ true
    → Map.lookup job.dest_path (execute_rename w job ops none).0.store.entries ≡ some d
unfolding execute_rename
rename_spares_claimed w job ops d h ne e c =
    let f : Batch → Batch × Unit {0} = λ b. (move_entry job b, tt) in
    ap (Map.lookup job.dest_path) (save-entries (others w ops) f h)
    ∙ move_entry-claimed job (new_batch (others w ops)) d ne e c
