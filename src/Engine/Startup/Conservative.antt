-- ===== src/Engine/Startup/Conservative.antt =====
-- internal/synceng/reconcile.go: what PrepareStartupCacheValidation leaves of the cache.
use makera_cnc_controller.Base.{
  ◌≡◌, refl, sym, Bool, true, not, ◌&&◌, Option, none, some, List, [], ◌∷◌, ◌++◌, ◌∙◌, arith,
  if◌then◌else◌, All, ◌⊎◌, inr,
}
use mathlib.Core.Path.{subst}
use makera_cnc_controller.Base.Text.{Text, text_eq, text_eq_iff, text_eq_refl}
use makera_cnc_controller.Base.Map
use makera_cnc_controller.Store.{
  CacheState, cache_blank, sync_eq, synced, remote_only, cache_eq, cache_none, cache_ready,
  cache_validating, Entry, Result, ok, err,
}
use makera_cnc_controller.Store.Batch.{Batch, put_entry, normalize_new_entry}
use makera_cnc_controller.Store.Commit.{World, batch, new_batch}
use makera_cnc_controller.Store.Commit.Opening.{save}
use makera_cnc_controller.Store.Jobs.{update_job, write_job}
use makera_cnc_controller.Engine.Drain.{recover_loop, recover_interrupted_jobs, interrupted}
use makera_cnc_controller.Store.{Job, state_eq, running}
use makera_cnc_controller.Store.Methods.{put_entry_saved}
use makera_cnc_controller.Store.Transactions.{publish_all-eq}
use makera_cnc_controller.Store.Catalog.{find_entry, list_entries, find-list_entries}
use makera_cnc_controller.Store.Invariant.{IsKeyed}
use makera_cnc_controller.Engine.Startup.{
  prepared, removed_file, prepare_loop, prepare_startup_cache_validation,
}

-- Of the files that are on the machine, only one that was last written locally has a cache that is served
-- without a look at the machine.
abbrev pub is_conservative : Entry → Bool
is_conservative e =
    if e.is_dir
    then cache_eq e.cache_state cache_none
    else if sync_eq e.sync synced
    then cache_eq e.cache_state cache_validating && not (text_eq e.cache_path [])
    else if sync_eq e.sync remote_only
    then cache_eq e.cache_state cache_none && text_eq e.cache_path []
    else not (cache_eq e.cache_state cache_validating)

prepared-none : (gone : Bool) (e : Entry) → prepared gone e ≡ none → is_conservative e ≡ true
unfolding prepared
prepared-none gone e h = ground arith

prepared-some :
    (gone : Bool) (e e' : Entry)
    → prepared gone e ≡ some e'
    → (is_conservative e' ≡ true) × (e'.path ≡ e.path)
unfolding prepared
prepared-some gone e e' h = ground (arith, text_eq_refl [])

normalize-conservative :
    (e : Entry) → is_conservative e ≡ true → is_conservative (normalize_new_entry e) ≡ true
unfolding normalize_new_entry
normalize-conservative e h = step e.cache_state refl
  where
    step : (c : CacheState) → e.cache_state ≡ c → is_conservative (normalize_new_entry e) ≡ true
    step cache_none eq = ground arith
    step cache_ready eq = ground arith
    step cache_validating eq = ground arith
    step cache_blank eq = ground arith

-- A write that succeeds, as the catalog shows it.
put_entry_saved-lookup :
    (w : World) (e : Entry) (q : Text) (stored : Entry)
    → (put_entry_saved w e).1 ≡ ok stored
    → Map.lookup q (put_entry_saved w e).0.store.entries ≡ (
        if text_eq e.path q
        then some (record (normalize_new_entry e) { updated_at = w.clock })
        else Map.lookup q w.store.entries)
unfolding put_entry_saved save batch put_entry
put_entry_saved-lookup w e q stored h =
    let cp : Entry = record (normalize_new_entry e) { updated_at = w.clock } in
    ground (
      arith,
      Map.lookup-insert {V = Entry} e.path q cp w.store.entries,
      publish_all-eq (put_entry (new_batch w) e).0.store (put_entry (new_batch w) e).0.events,
    )

-- What the catalog has at a path is conservative, or still to be looked at.
abbrev Ready : World → List Entry → Type 0
Ready w es =
    (q : Text) (e : Entry)
    → Map.lookup q w.store.entries ≡ some e
    → (is_conservative e ≡ true) ⊎ (find_entry q es ≡ some e)

Ready-skip :
    (w : World) (x : Entry) (es : List Entry)
    → is_conservative x ≡ true
    → Ready w (x ∷ es)
    → Ready w es
unfolding find_entry
Ready-skip w x es safe h q e held = ground (arith, h q e held)

Ready-write :
    (w : World) (x x' : Entry) (es : List Entry) (stored : Entry)
    → is_conservative x' ≡ true
    → x'.path ≡ x.path
    → (put_entry_saved w x').1 ≡ ok stored
    → Ready w (x ∷ es)
    → Ready (put_entry_saved w x').0 es
unfolding find_entry
Ready-write w x x' es stored safe same fine h q e held = ground (
  arith,
  put_entry_saved-lookup w x' q stored,
  normalize-conservative x',
  h q e,
  text_eq_iff x.path q,
)

-- A preparation that is not cut off leaves nothing to be looked at.
abbrev Prepared : World × Result (Unit {0}) → Type 0
Prepared r = r.1 ≡ ok tt → Ready r.0 []

after_write :
    (w : World) (x x' : Entry) (es : List Entry) (rest : World × Result (Unit {0}))
    (r : Result Entry)
    → is_conservative x' ≡ true
    → x'.path ≡ x.path
    → Ready w (x ∷ es)
    → (put_entry_saved w x').1 ≡ r
    → (Ready (put_entry_saved w x').0 es → Prepared rest)
    → Prepared (elim r [ err f ↦ ((put_entry_saved w x').0, err f) | ok _ ↦ rest ])
after_write w x x' es rest (err f) safe same h eq go = λ bad. cc
after_write w x x' es rest (ok stored) safe same h eq go =
    go (Ready-write w x x' es stored safe same eq h)

module _ (missing : List Text → Text → Bool) where
  prepare_loop-Ready :
      (es : List Entry) (w : World) (removed : List Text)
      → Ready w es
      → Prepared (prepare_loop missing w removed es)
  unfolding prepare_loop
  prepare_loop-Ready [] w removed h = λ fine. h
  prepare_loop-Ready (x ∷ es) w removed h =
      step (prepared (missing removed' x.cache_path) x) refl (prepare_loop-Ready es w removed')
        (λ x'. prepare_loop-Ready es (put_entry_saved w x').0 removed')
    where
      removed' : List Text
      removed' = removed ++ removed_file x

      step :
          (p : Option Entry)
          → prepared (missing removed' x.cache_path) x ≡ p
          → (Ready w es → Prepared (prepare_loop missing w removed' es))
          → ((x' : Entry)
              → Ready (put_entry_saved w x').0 es
              → Prepared (prepare_loop missing (put_entry_saved w x').0 removed' es))
          → Prepared (prepare_loop missing w removed (x ∷ es))
      step none eq skip write =
          rw (eq, prepare_loop) (skip (Ready-skip w x es (prepared-none _ x eq) h))
      step (some x') eq skip write =
          rw (eq, prepare_loop)
            (after_write w x x' es _ _ (prepared-some _ x x' eq).0 (prepared-some _ x x' eq).1 h
              refl (write x'))

recover_loop-entries :
    (msg : Text) (js : List Job) (b : Batch)
    → (recover_loop msg js b).store.entries ≡ b.store.entries
unfolding recover_loop update_job write_job
recover_loop-entries msg [] b = refl
recover_loop-entries msg (j ∷ js) b =
    let b' =
      if not (state_eq j.state running) then b else (update_job b j.id (interrupted msg)).0 in
    ground (arith, recover_loop-entries msg js b')

recover_interrupted_jobs-entries :
    (w : World) (msg : Text) → (recover_interrupted_jobs w msg).0.store.entries ≡ w.store.entries
unfolding recover_interrupted_jobs save batch
recover_interrupted_jobs-entries w msg =
    let b = recover_loop msg w.store.jobs (new_batch w) in
    ground
      (arith, recover_loop-entries msg w.store.jobs (new_batch w), publish_all-eq b.store b.events)

Ready-start : (w : World) → All IsKeyed w.store.entries → Ready w (list_entries w.store)
unfolding list_entries
Ready-start w keyed q e held = inr (find-list_entries q w.store.entries keyed ∙ held)

Ready-end :
    (w : World) (q : Text) (e : Entry)
    → Ready w []
    → Map.lookup q w.store.entries ≡ some e
    → is_conservative e ≡ true
unfolding find_entry
Ready-end w q e h held = ground (arith, h q e held)

module _ (missing : List Text → Text → Bool) where
  startup-Prepared :
      (w : World) (msg : Text)
      → All IsKeyed w.store.entries
      → Prepared (prepare_startup_cache_validation missing w msg)
  unfolding prepare_startup_cache_validation
  startup-Prepared w msg keyed = step (recover_interrupted_jobs w msg).1 refl
    where
      w' : World
      w' = (recover_interrupted_jobs w msg).0

      step :
          (r : Result (Unit {0}))
          → (recover_interrupted_jobs w msg).1 ≡ r
          → Prepared (prepare_startup_cache_validation missing w msg)
      step (err f) eq = rw (eq, prepare_startup_cache_validation) (λ bad. cc)
      step (ok u) eq =
          let keyed' =
            subst (λ m. All IsKeyed m) (sym (recover_interrupted_jobs-entries w msg)) keyed in
          rw (eq, prepare_startup_cache_validation)
            (prepare_loop-Ready missing (list_entries w'.store) w' [] (Ready-start w' keyed'))

-- When PrepareStartupCacheValidation returns without an error on a catalog keyed by its paths, then whatever was
-- stored and whatever cache files are missing, each entry of the catalog is a directory without a cache, a synced
-- file with a cache path whose cache waits to be validated, a remote_only file without a cache and its path, or a
-- file of another sync state whose cache does not wait to be validated.
pub startup_conservative :
    (missing : List Text → Text → Bool) (w : World) (msg : Text) (q : Text) (e : Entry)
    → All IsKeyed w.store.entries
    → (prepare_startup_cache_validation missing w msg).1 ≡ ok tt
    → Map.lookup q (prepare_startup_cache_validation missing w msg).0.store.entries ≡ some e
    → is_conservative e ≡ true
startup_conservative missing w msg q e keyed fine held =
    Ready-end (prepare_startup_cache_validation missing w msg).0 q e
      (startup-Prepared missing w msg keyed fine) held
