-- ===== src/Engine/Reconcile/Listing.antt =====
-- internal/synceng/reconcile.go: a listing of the machine is folded into the catalog, and the listing of a tree is taken.
use makera_cnc_controller.Base.{
  ℕ, zero, suc, not, ◌&&◌, ◌||◌, Option, none, some, List, [], ◌∷◌, ◌++◌, map, ◌==◌, if◌then◌else◌,
  is_some, keep_if,
}
use makera_cnc_controller.Base.Text.{Text}
use makera_cnc_controller.Base.Map
use makera_cnc_controller.Store.{Entry, bare_entry}
use makera_cnc_controller.Store.Ops.{Op}
use makera_cnc_controller.Store.Commit.{World}
use makera_cnc_controller.Engine.Execute.{others}
use makera_cnc_controller.Protocol.Listing.{DirEntry}
use makera_cnc_controller.Engine.Reconcile.{
  is_settled, put_discovered_if_absent, delete_entry_if_unchanged, remote_only_mtime_changed,
  mark_remote_only, sync_state_for, first_gap, later_gaps,
}

-- A path of the listing.
unfoldable pub fold_one : World → List (Text × Entry) → Text → DirEntry → World
unfolding put_discovered_if_absent mark_remote_only remote_only_mtime_changed is_settled
    sync_state_for
fold_one w known p de = elim (Map.lookup p known) [
  | none ↦ put_discovered_if_absent w (record (bare_entry p) {
    is_dir = de.is_dir;
    size = de.size;
    mtime = de.mtime;
    sync = sync_state_for de;
  })
  | some existing ↦
      if de.is_dir || existing.is_dir
      then w
      else if is_settled existing.sync
          && (not (existing.size == de.size) || remote_only_mtime_changed existing de)
      then mark_remote_only w existing de []
      else w
]

-- The first loop of reconcile, with what others write before each path.
unfoldable pub fold_remote :
    World → List (Text × Entry) → List (Text × DirEntry) → List (List Op) → World
unfolding fold_one
fold_remote w known [] gaps = w
fold_remote w known ((p, de) ∷ remote) gaps =
    fold_remote (fold_one (others w (first_gap gaps)) known p de) known remote (later_gaps gaps)

unfoldable pub drop_one : World → List (Text × DirEntry) → Text → Entry → World
unfolding delete_entry_if_unchanged is_settled
drop_one w remote p e =
    if is_some (Map.lookup p remote)
    then w
    else if is_settled e.sync
    then delete_entry_if_unchanged w e
    else w

-- The second loop.
unfoldable pub drop_missing :
    World → List (Text × DirEntry) → List (Text × Entry) → List (List Op) → World
unfolding drop_one
drop_missing w remote [] gaps = w
drop_missing w remote ((p, e) ∷ known) gaps =
    drop_missing (drop_one (others w (first_gap gaps)) remote p e) remote known (later_gaps gaps)

-- reconcile behind the listing, in which `known` is the catalog at that moment.
unfoldable pub fold_listing :
    World → List (Text × DirEntry) → List (List Op) → List (List Op) → World
unfolding fold_remote drop_missing
fold_listing w remote gaps gaps' =
    let known = w.store.entries in drop_missing (fold_remote w known remote gaps) remote known gaps'

module _ (join : Text → Text → Text) (list_dir : Text → Option (List DirEntry)) where
  add_rows : Text → List DirEntry → List (Text × DirEntry) → List (Text × DirEntry)
  add_rows dir [] out = out
  add_rows dir (de ∷ rows) out = add_rows dir rows (Map.insert (join dir de.name) de out)

  sub_dirs : Text → List DirEntry → List Text
  sub_dirs dir rows =
      map (λ (de : DirEntry). join dir de.name) (keep_if (λ (de : DirEntry). de.is_dir) rows)

  -- The directories of one depth, which stand together in the queue, and those found below them.
  list_level : List Text → List (Text × DirEntry) → Option (List (Text × DirEntry) × List Text)
  list_level [] out = some (out, [])
  list_level (dir ∷ dirs) out = elim (list_dir dir) [
    | none ↦ none
    | some rows ↦ elim (list_level dirs (add_rows dir rows out)) [
      | none ↦ none
      | some (out', below) ↦ some (out', sub_dirs dir rows ++ below)
    ]
  ]

  -- listTree, by the depths of its queue; none is an error of the machine.
  list_depths : ℕ → List Text → List (Text × DirEntry) → Option (List (Text × DirEntry))
  list_depths zero dirs out = elim (list_level dirs out) [
    | none ↦ none
    | some (out', below) ↦ some out'
  ]
  list_depths (suc depth) dirs out = elim (list_level dirs out) [
    | none ↦ none
    | some (out', below) ↦ list_depths depth below out'
  ]

  unfoldable pub list_tree : Text → ℕ → Option (List (Text × DirEntry))
  unfolding list_depths list_level sub_dirs add_rows
  list_tree root max_depth = list_depths max_depth (root ∷ []) []
