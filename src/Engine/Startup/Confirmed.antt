-- ===== src/Engine/Startup/Confirmed.antt =====
-- internal/synceng/reconcile.go: applyCacheValidationResults, and what the machine has said of a cache it opens.
use makera_cnc_controller.Base.{
  ◌≡◌, refl, sym, ap, Bool, true, false, not, ◌||◌, ◌&&◌, Option, none, some, List, [], ◌∙◌, arith,
  if◌then◌else◌, ◌==◌, All, ◌⊎◌, inl, inr, Bool-cases,
}
use makera_cnc_controller.Base.Text.{Text, text_eq, text_eq_iff, text_eq_refl}
use makera_cnc_controller.Base.Map
use makera_cnc_controller.Store.{
  sync_eq, synced, cache_eq, cache_ready, cache_validating, cache_blank, Entry,
}
use makera_cnc_controller.Store.Batch.{
  Batch, get_entry, put_entry, delete_entry, drop_entry, normalize_new_entry,
}
use makera_cnc_controller.Store.Commit.{World, batch, new_batch}
use makera_cnc_controller.Store.Commit.Opening.{save}
use makera_cnc_controller.Store.Methods.{entry_at}
use makera_cnc_controller.Store.Transactions.{publish_all-eq}
use makera_cnc_controller.Store.Invariant.{EntryOk, lookup-All}
use makera_cnc_controller.Protocol.Listing.{DirEntry}
use makera_cnc_controller.Engine.Reconcile.{
  Digest, digest, no_digest, connection_lost, run_batch, if_unchanged, same_reconcile_entry,
  mark_remote_only, mark_cache_ready, remote_only_entry, cache_ready_entry,
  delete_entry_if_unchanged,
}
use makera_cnc_controller.Engine.Startup.{
  CacheValidationResult, result_of, apply_result, judge_remote, judge_digest,
}

-- Where an MD5 was asked for, it was answered and is the entry's, if that is known.
abbrev pub agrees : Option Digest → Entry → Bool
agrees none e = true
agrees (some (digest md5)) e = text_eq e.md5 [] || text_eq md5 e.md5
agrees (some no_digest) e = false
agrees (some connection_lost) e = false

-- The machine has a file of this size, and the MD5 agrees.
abbrev confirming : Option DirEntry → Option Digest → Entry → Bool
confirming none d e = false
confirming (some de) d e = not de.is_dir && (e.size == de.size) && agrees d e

abbrev pub confirms : CacheValidationResult → Entry → Bool
confirms res e = confirming res.remote res.digest e

abbrev is_ready : Option Entry → Bool
is_ready none = false
is_ready (some e) = cache_eq e.cache_state cache_ready

abbrev at : Text → World → Option Entry
at q w = Map.lookup q w.store.entries

run_batch-cases :
    (w : World) (f : Batch → Batch) (q : Text)
    → (at q (run_batch w f) ≡ at q w)
      ⊎ (at q (run_batch w f) ≡ Map.lookup q (f (new_batch w)).store.entries)
unfolding save batch
run_batch-cases w f q =
    ground (arith, publish_all-eq (f (new_batch w)).store (f (new_batch w)).events)

-- A path is left alone, or its entry was as the snapshot and is acted on.
if_unchanged-cases :
    (snapshot : Entry) (act : Batch → Entry → Batch) (b : Batch)
    → (if_unchanged snapshot act b ≡ b)
      ⊎ ((latest : Entry) × (get_entry b snapshot.path ≡ some latest)
          × (same_reconcile_entry latest snapshot ≡ true)
          × (if_unchanged snapshot act b ≡ act b latest))
unfolding if_unchanged
if_unchanged-cases snapshot act b = step (get_entry b snapshot.path) refl
  where
    step :
        (found : Option Entry)
        → get_entry b snapshot.path ≡ found
        → (if_unchanged snapshot act b ≡ b)
          ⊎ ((latest : Entry) × (get_entry b snapshot.path ≡ some latest)
              × (same_reconcile_entry latest snapshot ≡ true)
              × (if_unchanged snapshot act b ≡ act b latest))
    step none eq = inl (rw (eq, if_unchanged) refl)
    step (some latest) eq = elim (Bool-cases (same_reconcile_entry latest snapshot)) [
      | inl t ↦ inr (latest, eq, t, rw (eq, if_unchanged) (rw t refl))
      | inr f ↦ inl (rw (eq, if_unchanged) (rw f refl))
    ]

same-fields :
    (a b : Entry)
    → same_reconcile_entry a b ≡ true
    → (a.path ≡ b.path) × (a.cache_path ≡ b.cache_path)
unfolding same_reconcile_entry
same-fields a b h = ground (arith, text_eq_iff a.path b.path, text_eq_iff a.cache_path b.cache_path)

-- A path whose entry becomes ready needs the reason C.
abbrev Readies : Text → World → World → Type 0 → Type 0
Readies q w w' C = is_ready (at q w') ≡ true → (is_ready (at q w) ≡ true) ⊎ C

module _ (w : World) (snapshot : Entry) (q : Text) where
  acts :
      (C : Type 0) (act : Batch → Entry → Batch)
      → ((latest : Entry)
          → same_reconcile_entry latest snapshot ≡ true
          → is_ready (Map.lookup q (act (new_batch w) latest).store.entries) ≡ true
          → (is_ready (at q w) ≡ true) ⊎ C)
      → Readies q w (run_batch w (if_unchanged snapshot act)) C
  acts C act h ready =
      let entry = λ (b : Batch). Map.lookup q b.store.entries in
      elim (run_batch-cases w (if_unchanged snapshot act) q) [
        | inl same ↦ inl (ap is_ready (sym same) ∙ ready)
        | inr written ↦ elim (if_unchanged-cases snapshot act (new_batch w)) [
          | inl same ↦ inl (ap is_ready (sym (written ∙ ap entry same)) ∙ ready)
          | inr (latest, found, matches, e) ↦
              h latest matches (ap is_ready (sym (written ∙ ap entry e)) ∙ ready)
        ]
      ]

  put_entry-ready :
      (e : Entry)
      → is_ready (Map.lookup q (put_entry (new_batch w) e).0.store.entries) ≡ true
      → (is_ready (at q w) ≡ true)
        ⊎ ((q ≡ e.path) × (is_ready (some (normalize_new_entry e)) ≡ true))
  unfolding put_entry
  put_entry-ready e ready =
      let cp : Entry = record (normalize_new_entry e) { updated_at = w.clock } in
      ground
        (arith, Map.lookup-insert {V = Entry} e.path q cp w.store.entries, text_eq_iff e.path q)

  mark_cache_ready-Readies :
      (de : DirEntry) (md5 : Text)
      → Readies q w (mark_cache_ready w snapshot de md5) (q ≡ snapshot.path)
  unfolding mark_cache_ready cache_ready_entry
  mark_cache_ready-Readies de md5 =
      acts (q ≡ snapshot.path)
        (λ b latest. (put_entry b (cache_ready_entry w.clock latest de md5)).0)
        (λ latest same ready. ground (
          arith,
          put_entry-ready (cache_ready_entry w.clock latest de md5),
          same-fields latest snapshot,
        ))

  mark_remote_only-Readies :
      (de : DirEntry) (md5 : Text) → Readies q w (mark_remote_only w snapshot de md5) (false ≡ true)
  unfolding mark_remote_only remote_only_entry normalize_new_entry
  mark_remote_only-Readies de md5 =
      acts (false ≡ true) (λ b latest. (put_entry b (remote_only_entry latest de md5)).0)
        (λ latest same ready.
          ground (arith, put_entry-ready (remote_only_entry latest de md5), text_eq_refl []))

  delete_entry-ready :
      is_ready (Map.lookup q (delete_entry (new_batch w) snapshot.path).0.store.entries) ≡ true
      → is_ready (at q w) ≡ true
  unfolding delete_entry drop_entry
  delete_entry-ready ready =
      ground (arith, Map.lookup-delete {V = Entry} snapshot.path q w.store.entries)

  delete-Readies : Readies q w (delete_entry_if_unchanged w snapshot) (false ≡ true)
  unfolding delete_entry_if_unchanged
  delete-Readies =
      acts (false ≡ true) (λ b latest. (delete_entry b snapshot.path).0)
        (λ latest same ready. inl (delete_entry-ready ready))

  judge_digest-Readies :
      (de : DirEntry) (d : Option Digest)
      → Readies q w
          (judge_digest w snapshot de d)
          ((q ≡ snapshot.path) × (agrees d snapshot ≡ true))
  unfolding judge_digest
  judge_digest-Readies de none ready = ground (arith, mark_cache_ready-Readies de [])
  judge_digest-Readies de (some no_digest) ready = inl ready
  judge_digest-Readies de (some connection_lost) ready = inl ready
  judge_digest-Readies de (some (digest md5)) ready =
      ground (arith, mark_cache_ready-Readies de md5, mark_remote_only-Readies de md5)

  judge_remote-Readies :
      (d : Option Digest) (remote : Option DirEntry)
      → Readies q w
          (judge_remote w snapshot d remote)
          ((q ≡ snapshot.path) × (confirming remote d snapshot ≡ true))
  unfolding judge_remote
  judge_remote-Readies d none ready = ground (arith, delete-Readies)
  judge_remote-Readies d (some de) ready =
      ground (arith, delete-Readies, mark_remote_only-Readies de [], judge_digest-Readies de d)

-- Why a candidate opens the cache of the entry.
abbrev Opens : World → CacheValidationResult → Entry → Text → Entry → Type 0
Opens w res c q latest =
    (q ≡ latest.path)
    × (sync_eq latest.sync synced ≡ true)
    × (text_eq latest.cache_path c.cache_path ≡ true)
    × (confirms res latest ≡ true)

candidate-Readies :
    (w : World) (res : CacheValidationResult) (c : Entry) (q : Text) (latest : Entry)
    → Readies q w
        (if not (sync_eq latest.sync synced)
            || not (text_eq latest.cache_path c.cache_path)
            || not (
                cache_eq latest.cache_state cache_validating
                || cache_eq latest.cache_state cache_blank)
          then w
          else judge_remote w latest res.digest res.remote)
        (Opens w res c q latest)
candidate-Readies w res c q latest =
    ground (arith, judge_remote-Readies w latest q res.digest res.remote)

apply_result-Readies :
    (w : World) (results : List (Text × CacheValidationResult)) (c : Entry) (q : Text)
    (found : Option Entry)
    → Map.lookup c.path w.store.entries ≡ found
    → Readies q w
        (apply_result w results c)
        ((latest : Entry) × (found ≡ some latest) × Opens w (result_of c.path results) c q latest)
unfolding apply_result entry_at
apply_result-Readies w results c q none eq = rw (eq, apply_result) (λ ready. inl ready)
apply_result-Readies w results c q (some latest) eq =
    rw (eq, apply_result)
      (λ ready. elim (candidate-Readies w (result_of c.path results) c q latest ready) [
        | inl was ↦ inl was
        | inr opens ↦ inr (latest, refl, opens)
      ])

-- Applying the results of the machine to a candidate makes an entry ready that was not ready before only if it is
-- the entry of that candidate, still synced and with the same cache file, and the machine has a file there of the
-- same size, whose MD5, if it was asked for, was answered and is the entry's, if it has one.
pub apply_result_confirmed :
    (w : World) (results : List (Text × CacheValidationResult)) (c : Entry) (q : Text)
    (e e' : Entry)
    → All EntryOk w.store.entries
    → Map.lookup q w.store.entries ≡ some e
    → cache_eq e.cache_state cache_ready ≡ false
    → Map.lookup q (apply_result w results c).store.entries ≡ some e'
    → cache_eq e'.cache_state cache_ready ≡ true
    → (q ≡ c.path)
      × (sync_eq e.sync synced ≡ true)
      × (text_eq e.cache_path c.cache_path ≡ true)
      × (confirms (result_of q results) e ≡ true)
apply_result_confirmed w results c q e e' keyed held unready held' ready =
    elim (apply_result-Readies w results c q (Map.lookup c.path w.store.entries) refl
      (ap is_ready held' ∙ ready)) [
        | inl was ↦ ground (arith, ap is_ready (sym held) ∙ was)
        | inr (latest, found, opens) ↦
            let same = opens.0 ∙ (lookup-All c.path w.store.entries latest keyed found).0 in
            let entry : latest ≡ e = ground (arith, found, held, same) in
            (same, rw (sym entry) opens.1, rw (sym entry) opens.2, rw (sym entry) (rw same opens.3))
      ]
