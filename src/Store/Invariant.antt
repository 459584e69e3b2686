-- ===== src/Store/Invariant.antt =====
-- What holds of the store between two calls, and that each call of a batch keeps it.
use makera_cnc_controller.Base.{
  ℕ, suc, ◌+◌, ◌≤◌, ◌≡◌, Bool, true, ◌||◌, some, List, [], ◌∷◌, ◌++◌, arith, All,
}
use makera_cnc_controller.Base.Text.{Text, text_eq, text_eq_iff, trim_space}
use makera_cnc_controller.Base.Map
use makera_cnc_controller.Store.{SyncState, cache_none, Entry, Job, Store}
use makera_cnc_controller.Store.Batch.{
  Batch, normalize_new_entry, find_job, write_sync, drop_entry, retire, retire_where,
}
use makera_cnc_controller.Store.Jobs.{replace_job, write_job, prune_done_loop, prune_failed_loop}

-- A directory, and an entry with no local file, serves no cached bytes.
abbrev pub CacheOk : Entry → Type 0
CacheOk e =
    (e.is_dir || text_eq e.cache_path []) ≡ true
    → (e.cache_state ≡ cache_none) × (e.cache_checked_at ≡ 0)

-- A binding of the catalog: under its own path.
abbrev pub IsKeyed : Text × Entry → Type 0
IsKeyed p = p.1.path ≡ p.0

-- With the rule on the cache.
abbrev pub EntryOk : Text × Entry → Type 0
EntryOk p = (p.1.path ≡ p.0) × CacheOk p.1

-- Ids rise along the queue, from `lo` on and below `next`.
abbrev pub Chain : ℕ → List Job → ℕ → Type 0
Chain lo [] next = lo ≤ next
Chain lo (j ∷ js) next = (lo ≤ j.id) × Chain (suc j.id) js next

pub record WellFormed (s : Store) : Type 0 where
  pub catalog : All EntryOk s.entries
  pub ids : Chain 1 s.jobs s.next_job
  pub tidy : trim_space s.active ≡ s.active

Chain-mono : (lo lo' next : ℕ) (js : List Job) → lo ≤ lo' → Chain lo' js next → Chain lo js next
Chain-mono lo lo' next [] h c = omega arith
Chain-mono lo lo' next (j ∷ js) h c = (omega arith, c.1)

pub Chain-append :
    (lo next : ℕ) (js : List Job) (j : Job)
    → j.id ≡ next
    → Chain lo js next
    → Chain lo (js ++ (j ∷ [])) (next + 1)
Chain-append lo next [] j e c = omega arith
Chain-append lo next (k ∷ js) j e c = (c.0, Chain-append (suc k.id) next js j e c.1)

Chain-replace :
    (lo next i : ℕ) (k : Job) (js : List Job)
    → k.id ≡ i
    → Chain lo js next
    → Chain lo (replace_job i k js) next
unfolding replace_job
Chain-replace lo next i k [] e c = c
Chain-replace lo next i k (j ∷ js) e c = ground (arith, Chain-replace (suc j.id) next i k js e c.1)

pub Chain-retire :
    (lo next now : ℕ) (test : Job → Bool) (js : List Job)
    → Chain lo js next
    → Chain lo (retire now test js) next
unfolding retire
Chain-retire lo next now test [] c = c
Chain-retire lo next now test (j ∷ js) c =
    ground (arith, Chain-retire (suc j.id) next now test js c.1)

pub Chain-prune_done :
    (lo next cutoff : ℕ) (js : List Job)
    → Chain lo js next
    → Chain lo (prune_done_loop cutoff js).0 next
unfolding prune_done_loop
Chain-prune_done lo next cutoff [] c = c
Chain-prune_done lo next cutoff (j ∷ js) c = ground (
  arith,
  Chain-prune_done (suc j.id) next cutoff js c.1,
  Chain-mono lo (suc j.id) next (prune_done_loop cutoff js).0,
)

pub Chain-prune_failed :
    (lo next n : ℕ) (js : List Job) → Chain lo js next → Chain lo (prune_failed_loop n js).0 next
unfolding prune_failed_loop
Chain-prune_failed lo next n [] c = c
Chain-prune_failed lo next n (j ∷ js) c = ground (
  arith,
  Chain-prune_failed (suc j.id) next n js c.1,
  Chain-mono lo (suc j.id) next (prune_failed_loop n js).0,
)

pub find_job-id : (i : ℕ) (js : List Job) (j : Job) → find_job i js ≡ some j → j.id ≡ i
unfolding find_job
find_job-id i [] j e = cc
find_job-id i (k ∷ js) j e = ground (arith, find_job-id i js j)

pub insert-All :
    (k : Text) (e : Entry) (m : List (Text × Entry))
    → EntryOk (k, e)
    → All EntryOk m
    → All EntryOk (Map.insert k e m)
unfolding Map.insert
insert-All k e [] h a = (h, tt)
insert-All k e ((j, w) ∷ m) h a = ground (arith, insert-All k e m h a.1)

pub delete-All : (k : Text) (m : List (Text × Entry)) → All EntryOk m → All EntryOk (Map.delete k m)
unfolding Map.delete
delete-All k [] a = tt
delete-All k ((j, w) ∷ m) a = ground (arith, delete-All k m a.1)

pub lookup-All :
    (k : Text) (m : List (Text × Entry)) (e : Entry)
    → All EntryOk m
    → Map.lookup k m ≡ some e
    → EntryOk (k, e)
unfolding Map.lookup
lookup-All k [] e a h = cc
lookup-All k ((j, w) ∷ m) e a h = ground (arith, lookup-All k m e a.1, text_eq_iff j k)

pub normalize_new_entry-Ok :
    (e : Entry) → CacheOk (normalize_new_entry e) × ((normalize_new_entry e).path ≡ e.path)
unfolding normalize_new_entry
normalize_new_entry-Ok e = ground arith

pub write_sync-WellFormed :
    (b : Batch) (p : Text) (e : Entry) (st : SyncState) (msg : Text)
    → EntryOk (p, e)
    → WellFormed b.store
    → WellFormed (write_sync b p e st msg).0.store
unfolding write_sync
write_sync-WellFormed b p e st msg h v = record {
  catalog = insert-All p _ b.store.entries h v.catalog;
  ids = v.ids;
  tidy = v.tidy;
}

pub drop_entry-WellFormed :
    (b : Batch) (p : Text) → WellFormed b.store → WellFormed (drop_entry b p).store
unfolding drop_entry
drop_entry-WellFormed b p v = record {
  catalog = delete-All p b.store.entries v.catalog;
  ids = v.ids;
  tidy = v.tidy;
}

pub retire_where-WellFormed :
    (b : Batch) (test : Job → Bool) → WellFormed b.store → WellFormed (retire_where b test).0.store
unfolding retire_where
retire_where-WellFormed b test v = record {
  catalog = v.catalog;
  ids = Chain-retire 1 b.store.next_job b.now test b.store.jobs v.ids;
  tidy = v.tidy;
}

pub write_job-WellFormed :
    (b : Batch) (i : ℕ) (j : Job)
    → j.id ≡ i
    → WellFormed b.store
    → WellFormed (write_job b i j).store
unfolding write_job
write_job-WellFormed b i j e v = record {
  catalog = v.catalog;
  ids = Chain-replace 1 b.store.next_job i j b.store.jobs e v.ids;
  tidy = v.tidy;
}
