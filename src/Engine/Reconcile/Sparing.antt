-- ===== src/Engine/Reconcile/Sparing.antt =====
-- internal/synceng/reconcile.go: an entry with a local intent is out of the reconciliation's reach.
use makera_cnc_controller.Base.{
  ◌≡◌, refl, true, false, Option, none, some, List, [], ◌∷◌, arith, if◌then◌else◌, All,
}
use makera_cnc_controller.Base.Text.{Text, text_eq, text_eq_iff, text_eq_refl}
use makera_cnc_controller.Base.Map
use makera_cnc_controller.Store.{Entry}
use makera_cnc_controller.Store.Batch.{
  Batch, normalize_new_entry, get_entry, put_entry, delete_entry, drop_entry,
}
use makera_cnc_controller.Store.Ops.{Op, apply_all}
use makera_cnc_controller.Store.Commit.{World, batch, new_batch}
use makera_cnc_controller.Store.Commit.Opening.{save}
use makera_cnc_controller.Store.Transactions.{run_ops, publish_all-eq}
use makera_cnc_controller.Engine.Execute.{others}
use makera_cnc_controller.Protocol.Listing.{DirEntry}
use makera_cnc_controller.Engine.Reconcile.{
  is_settled, same_reconcile_entry, if_unchanged, discover, run_batch, put_discovered_if_absent,
  delete_entry_if_unchanged, mark_remote_only, remote_only_entry, first_gap, later_gaps,
}
use makera_cnc_controller.Engine.Reconcile.Listing.{
  fold_one, fold_remote, drop_one, drop_missing, fold_listing,
}

-- The catalog has the entry at the path.
abbrev pub Holds : Text → Entry → World → Type 0
Holds q e w = Map.lookup q w.store.entries ≡ some e

-- Others leave the entry as it is.
abbrev pub Leaves : Text → Entry → List Op → Type 0
Leaves q e ops = (w : World) → Holds q e w → Holds q e (others w ops)

run_batch-Holds :
    (q : Text) (e : Entry) (w : World) (f : Batch → Batch)
    → Map.lookup q (f (new_batch w)).store.entries ≡ some e
    → Holds q e w
    → Holds q e (run_batch w f)
unfolding save batch
run_batch-Holds q e w f kept held =
    ground (arith, publish_all-eq (f (new_batch w)).store (f (new_batch w)).events)

same_settled :
    (a b : Entry) → same_reconcile_entry a b ≡ true → is_settled a.sync ≡ is_settled b.sync
unfolding same_reconcile_entry is_settled
same_settled a b h = ground arith

-- What is done to an unchanged entry that is settled stays away from an entry that is not.
module _ (q : Text) (e : Entry) (intent : is_settled e.sync ≡ false) where
  abbrev Keeps : Batch → Batch → Type 0
  Keeps b b' = Map.lookup q b.store.entries ≡ some e → Map.lookup q b'.store.entries ≡ some e

  if_unchanged-Keeps :
      (snapshot : Entry) (act : Batch → Entry → Batch) (b : Batch)
      → is_settled snapshot.sync ≡ true
      → ((latest : Entry)
          → same_reconcile_entry latest snapshot ≡ true
          → Map.lookup q (act b latest).store.entries ≡ (
              if text_eq snapshot.path q
              then Map.lookup q (act b latest).store.entries
              else Map.lookup q b.store.entries))
      → Keeps b (if_unchanged snapshot act b)
  unfolding if_unchanged get_entry
  if_unchanged-Keeps snapshot act b settled away held =
      step (Map.lookup snapshot.path b.store.entries) refl
    where
      step :
          (found : Option Entry)
          → Map.lookup snapshot.path b.store.entries ≡ found
          → Map.lookup q (if_unchanged snapshot act b).store.entries ≡ some e
      step none eq = rw (eq, if_unchanged) held
      step (some latest) eq =
          rw (eq, if_unchanged)
            (ground (arith, text_eq_iff snapshot.path q, same_settled e snapshot, away latest))

  put_entry-away :
      (b : Batch) (x : Entry) (p : Text)
      → text_eq x.path p ≡ true
      → Map.lookup q (put_entry b x).0.store.entries ≡ (
          if text_eq p q
          then Map.lookup q (put_entry b x).0.store.entries
          else Map.lookup q b.store.entries)
  unfolding put_entry
  put_entry-away b x p h = ground (
    arith,
    text_eq_iff x.path p,
    Map.lookup-insert {V = Entry} x.path q (record (normalize_new_entry x) { updated_at = b.now })
        b.store.entries,
  )

  delete_entry-away :
      (b : Batch) (p : Text)
      → Map.lookup q (delete_entry b p).0.store.entries ≡ (
          if text_eq p q
          then Map.lookup q (delete_entry b p).0.store.entries
          else Map.lookup q b.store.entries)
  unfolding delete_entry drop_entry
  delete_entry-away b p = ground (arith, Map.lookup-delete {V = Entry} p q b.store.entries)

  same_path : (a b : Entry) → same_reconcile_entry a b ≡ true → text_eq a.path b.path ≡ true
  unfolding same_reconcile_entry
  same_path a b h = ground arith

  discover-Keeps : (found : Entry) (b : Batch) → Keeps b (discover found b)
  unfolding discover get_entry
  discover-Keeps found b held =
      ground (
        arith,
        text_eq_iff found.path q,
        put_entry-away b found found.path (text_eq_refl found.path),
      )

  mark_remote_only-Holds :
      (w : World) (existing : Entry) (de : DirEntry) (md5 : Text)
      → is_settled existing.sync ≡ true
      → Holds q e w
      → Holds q e (mark_remote_only w existing de md5)
  unfolding mark_remote_only remote_only_entry
  mark_remote_only-Holds w existing de md5 settled held =
      run_batch-Holds q e w _
        (if_unchanged-Keeps existing (λ b latest. (put_entry b (remote_only_entry latest de md5)).0)
          (new_batch w) settled
          (λ latest same.
            put_entry-away (new_batch w) (remote_only_entry latest de md5) existing.path
              (same_path latest existing same))
          held)
        held

  delete_entry_if_unchanged-Holds :
      (w : World) (snapshot : Entry)
      → is_settled snapshot.sync ≡ true
      → Holds q e w
      → Holds q e (delete_entry_if_unchanged w snapshot)
  unfolding delete_entry_if_unchanged
  delete_entry_if_unchanged-Holds w snapshot settled held =
      run_batch-Holds q e w _
        (if_unchanged-Keeps snapshot (λ b latest. (delete_entry b snapshot.path).0) (new_batch w)
          settled (λ latest same. delete_entry-away (new_batch w) snapshot.path) held)
        held

  put_discovered_if_absent-Holds :
      (w : World) (found : Entry) → Holds q e w → Holds q e (put_discovered_if_absent w found)
  unfolding put_discovered_if_absent
  put_discovered_if_absent-Holds w found held =
      run_batch-Holds q e w _ (discover-Keeps found (new_batch w) held) held

  fold_one-Holds :
      (w : World) (known : List (Text × Entry)) (p : Text) (de : DirEntry)
      → Holds q e w
      → Holds q e (fold_one w known p de)
  unfolding fold_one
  fold_one-Holds w known p de held = step (Map.lookup p known) refl
    where
      step : (found : Option Entry) → Map.lookup p known ≡ found → Holds q e (fold_one w known p de)
      step none eq = rw (eq, fold_one) (put_discovered_if_absent-Holds w _ held)
      step (some existing) eq =
          rw (eq, fold_one) (ground (arith, held, mark_remote_only-Holds w existing de []))

  drop_one-Holds :
      (w : World) (remote : List (Text × DirEntry)) (p : Text) (x : Entry)
      → Holds q e w
      → Holds q e (drop_one w remote p x)
  unfolding drop_one
  drop_one-Holds w remote p x held = ground (arith, delete_entry_if_unchanged-Holds w x)

  no-Leaves : Leaves q e []
  unfolding run_ops batch apply_all
  no-Leaves w held = held

  first-Leaves : (gaps : List (List Op)) → All (Leaves q e) gaps → Leaves q e (first_gap gaps)
  first-Leaves [] h w held = no-Leaves w held
  first-Leaves (ops ∷ gaps) h w held = h.0 w held

  later-Leaves :
      (gaps : List (List Op)) → All (Leaves q e) gaps → All (Leaves q e) (later_gaps gaps)
  later-Leaves [] h = tt
  later-Leaves (ops ∷ gaps) h = h.1

  fold_remote-Holds :
      (w : World) (known : List (Text × Entry)) (remote : List (Text × DirEntry))
      (gaps : List (List Op))
      → All (Leaves q e) gaps
      → Holds q e w
      → Holds q e (fold_remote w known remote gaps)
  unfolding fold_remote
  fold_remote-Holds w known [] gaps h held = held
  fold_remote-Holds w known ((p, de) ∷ remote) gaps h held =
      fold_remote-Holds (fold_one (others w (first_gap gaps)) known p de) known remote
        (later_gaps gaps) (later-Leaves gaps h)
        (fold_one-Holds _ known p de (first-Leaves gaps h w held))

  drop_missing-Holds :
      (w : World) (remote : List (Text × DirEntry)) (known : List (Text × Entry))
      (gaps : List (List Op))
      → All (Leaves q e) gaps
      → Holds q e w
      → Holds q e (drop_missing w remote known gaps)
  unfolding drop_missing
  drop_missing-Holds w remote [] gaps h held = held
  drop_missing-Holds w remote ((p, x) ∷ known) gaps h held =
      drop_missing-Holds (drop_one (others w (first_gap gaps)) remote p x) remote known
        (later_gaps gaps) (later-Leaves gaps h)
        (drop_one-Holds _ remote p x (first-Leaves gaps h w held))

-- An entry whose sync state is neither synced nor remote_only, and which nobody else changes meanwhile, is
-- the same after the machine's listing is folded into the catalog, whatever the listing holds, whatever
-- others do to the rest of the catalog, and whether or not the writes reach the disk.
pub fold_listing_spares :
    (w : World) (remote : List (Text × DirEntry)) (gaps gaps' : List (List Op)) (q : Text)
    (e : Entry)
    → is_settled e.sync ≡ false
    → All (Leaves q e) gaps
    → All (Leaves q e) gaps'
    → Map.lookup q w.store.entries ≡ some e
    → Map.lookup q (fold_listing w remote gaps gaps').store.entries ≡ some e
unfolding fold_listing
fold_listing_spares w remote gaps gaps' q e intent h h' held =
    drop_missing-Holds q e intent _ remote w.store.entries gaps' h'
      (fold_remote-Holds q e intent w w.store.entries remote gaps h held)
