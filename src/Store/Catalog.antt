-- ===== src/Store/Catalog.antt =====
-- internal/store/store.go: ListEntries, the catalog as a list sorted by path.
use makera_cnc_controller.Base.{
  ◌≡◌, refl, Bool, true, false, ◌&&◌, ◌||◌, Option, none, some, List, [], ◌∷◌, arith, if◌then◌else◌,
  ltb, ◌==◌, All,
}
use makera_cnc_controller.Base.Text.{Text, text_eq, text_eq_iff}
use makera_cnc_controller.Base.Map
use makera_cnc_controller.Store.{Entry, Store}
use makera_cnc_controller.Store.Invariant.{IsKeyed}

-- `<` on Go strings.
unfoldable pub text_less : Text → Text → Bool
text_less s [] = false
text_less [] (y ∷ ys) = true
text_less (x ∷ xs) (y ∷ ys) = ltb x y || (x == y && text_less xs ys)

unfoldable pub insert_by_path : Entry → List Entry → List Entry
unfolding text_less
insert_by_path e [] = e ∷ []
insert_by_path e (x ∷ xs) = if text_less x.path e.path then x ∷ insert_by_path e xs else e ∷ x ∷ xs

unfoldable pub sort_by_path : List (Text × Entry) → List Entry
unfolding insert_by_path
sort_by_path [] = []
sort_by_path ((k, e) ∷ m) = insert_by_path e (sort_by_path m)

unfoldable pub list_entries : Store → List Entry
unfolding sort_by_path
list_entries s = sort_by_path s.entries

-- The first entry of a list with the path.
unfoldable pub find_entry : Text → List Entry → Option Entry
find_entry q [] = none
find_entry q (e ∷ es) = if text_eq e.path q then some e else find_entry q es

text_less_irrefl : (s : Text) → text_less s s ≡ false
unfolding text_less
text_less_irrefl [] = refl
text_less_irrefl (x ∷ xs) = ground (arith, text_less_irrefl xs)

find-insert_by_path :
    (q : Text) (e : Entry) (es : List Entry)
    → find_entry q (insert_by_path e es) ≡ find_entry q (e ∷ es)
unfolding find_entry insert_by_path
find-insert_by_path q e [] = refl
find-insert_by_path q e (x ∷ xs) = ground (
  arith,
  find-insert_by_path q e xs,
  text_less_irrefl q,
  text_eq_iff x.path q,
  text_eq_iff e.path q,
)

-- Each entry of a catalog that is keyed by its paths is in the list.
pub find-list_entries :
    (q : Text) (m : List (Text × Entry))
    → All IsKeyed m
    → find_entry q (sort_by_path m) ≡ Map.lookup q m
unfolding find_entry sort_by_path Map.lookup
find-list_entries q [] ok = refl
find-list_entries q ((k, e) ∷ m) ok =
    let head = find-insert_by_path q e (sort_by_path m) in
    ground (arith, head, find-list_entries q m ok.1)
