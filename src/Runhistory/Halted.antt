-- ===== src/Runhistory/Halted.antt =====
-- internal/runhistory/runhistory.go: reports of a machine that is halted, and the bound of the history.
use makera_cnc_controller.Base.{
  ℕ, zero, suc, ◌+◌, ◌-◌, ◌/◌, ◌%◌, ◌^◌, ◌≤◌, ◌≡◌, refl, sym, ap, ◌∙◌, Bool, true, false, not, any,
  ◌++◌, drop, ◌&&◌, ◌||◌, none, some, List, [], ◌∷◌, ltb, ◌==◌, if◌then◌else◌, length, arith, All,
  append-nil, append_assoc, length-append,
}
use makera_cnc_controller.Machine.{alarm, sleep}
use makera_cnc_controller.Attention.{state_eq}
use makera_cnc_controller.Runhistory.{History, Run, Report, change_run, change_active}
use makera_cnc_controller.Gcodelog.{last_n}
use makera_cnc_controller.Runhistory.Bounds.{length-change_run, length-last_n}
use makera_cnc_controller.Gcodelog.Recent.{last_n-short, last_n-snoc}
use makera_cnc_controller.Runhistory.Runs.{
  starts_run, ends_run, add_transition, add_alarm, update_run, start_run, update_active_run,
  end_run, track_run, observe_report,
}

-- The numbers of runs.
unfoldable pub ids : List Run → List ℕ
ids [] = []
ids (r ∷ rs) = r.id ∷ ids rs

-- The number behind a number, and the next `k` numbers.
abbrev pub after : ℕ → ℕ
after n = (n + 1) % 2 ^ 64

unfoldable pub numbers : ℕ → ℕ → List ℕ
numbers n zero = []
numbers n (suc k) = n ∷ numbers (after n) k

unfoldable pub number_after : ℕ → ℕ → ℕ
number_after n zero = n
number_after n (suc k) = number_after (after n) k

ids-append : (rs ss : List Run) → ids (rs ++ ss) ≡ ids rs ++ ids ss
unfolding ids
ids-append [] ss = refl
ids-append (r ∷ rs) ss = ap (λ t. r.id ∷ t) (ids-append rs ss)

length-ids : (rs : List Run) → length (ids rs) ≡ length rs
unfolding ids
length-ids [] = refl
length-ids (r ∷ rs) = ap suc (length-ids rs)

ids-drop : (n : ℕ) (rs : List Run) → ids (drop n rs) ≡ drop n (ids rs)
unfolding ids
ids-drop zero rs = refl
ids-drop (suc n) [] = refl
ids-drop (suc n) (r ∷ rs) = ids-drop n rs

ids-last_n : (n : ℕ) (rs : List Run) → ids (last_n n rs) ≡ last_n n (ids rs)
unfolding last_n
ids-last_n n rs =
    ids-drop (length rs - n) rs ∙ ap (λ (k : ℕ). drop (k - n) (ids rs)) (sym (length-ids rs))

ids-change_run :
    (i : ℕ) (f : Run → Run) (rs : List Run)
    → ((r : Run) → (f r).id ≡ r.id)
    → ids (change_run i f rs) ≡ ids rs
unfolding ids change_run
ids-change_run i f [] same = refl
ids-change_run zero f (r ∷ rs) same = ap (λ t. t ∷ ids rs) (same r)
ids-change_run (suc i) f (r ∷ rs) same = ap (λ t. r.id ∷ t) (ids-change_run i f rs same)

-- No run is marked as active, and none but the last.
abbrev pub is_marked : List Run → Bool
is_marked rs = any (λ r. r.is_active) rs

unfoldable quiet_front : List Run → Bool
quiet_front [] = true
quiet_front (r ∷ []) = true
quiet_front (r ∷ s ∷ rs) = not r.is_active && quiet_front (s ∷ rs)

quiet_front-snoc :
    (rs : List Run) (r : Run) → is_marked rs ≡ false → quiet_front (rs ++ (r ∷ [])) ≡ true
unfolding quiet_front
quiet_front-snoc [] r h = refl
quiet_front-snoc (s ∷ []) r h = ground arith
quiet_front-snoc (s ∷ t ∷ rs) r h = ground (arith, quiet_front-snoc (t ∷ rs) r)

quiet_front-drop : (n : ℕ) (rs : List Run) → quiet_front rs ≡ true → quiet_front (drop n rs) ≡ true
unfolding quiet_front
quiet_front-drop zero rs h = h
quiet_front-drop (suc n) [] h = refl
quiet_front-drop (suc zero) (r ∷ []) h = refl
quiet_front-drop (suc (suc n)) (r ∷ []) h = refl
quiet_front-drop (suc n) (r ∷ s ∷ rs) h = quiet_front-drop n (s ∷ rs) (ground arith)

quiet_front-change :
    (f : Run → Run) (rs : List Run)
    → quiet_front rs ≡ true
    → quiet_front (change_run (length rs - 1) f rs) ≡ true
unfolding quiet_front change_run
quiet_front-change f [] h = refl
quiet_front-change f (r ∷ []) h = refl
quiet_front-change f (r ∷ s ∷ []) h = ground arith
quiet_front-change f (r ∷ s ∷ t ∷ rs) h = ground (arith, quiet_front-change f (s ∷ t ∷ rs))

marked-change :
    (f : Run → Run) (rs : List Run)
    → ((r : Run) → (f r).is_active ≡ false)
    → quiet_front rs ≡ true
    → is_marked (change_run (length rs - 1) f rs) ≡ false
unfolding quiet_front change_run
marked-change f [] off h = refl
marked-change f (r ∷ []) off h = ground (arith, off r)
marked-change f (r ∷ s ∷ rs) off h = ground (arith, marked-change f (s ∷ rs) off)

update_run-id : (h : History) (st : Report) (now : ℕ) (r : Run) → (update_run h st now r).id ≡ r.id
unfolding update_run add_transition add_alarm
update_run-id h st now r = ground arith

-- A run that is tracked at a report that ends it, where it is the last.
track-ends :
    (h : History) (st : Report) (now : ℕ)
    → quiet_front h.runs ≡ true
    → ends_run st ≡ true
    → let o = track_run (record h { active = some (length h.runs - 1) }) st now in
      (o.active ≡ none)
      × (o.cap ≡ h.cap)
      × (o.next_id ≡ h.next_id)
      × (ids o.runs ≡ ids h.runs)
      × (is_marked o.runs ≡ false)
unfolding track_run update_active_run end_run change_active
track-ends h st now front ends =
    let g = record h { active = some (length h.runs - 1) } in
    let f : Run → Run = update_run g st now in
    let ended : Run → Run = λ r. record r {
      is_active = false;
      end_state = st.state;
      ended_at = some now;
      duration_ms = (now - r.started_at) / 1000000;
    } in
    let i = length h.runs - 1 in
    let changed = change_run i f h.runs in
    let kept : ids (change_run i ended changed) ≡ ids h.runs =
      ids-change_run i ended changed (λ r. refl)
      ∙ ids-change_run i f h.runs (update_run-id g st now) in
    let same : length changed - 1 ≡ i = ap (λ (k : ℕ). k - 1) (length-change_run i f h.runs) in
    let off = marked-change ended changed (λ r. refl) (quiet_front-change f h.runs front) in
    rw ends (refl, refl, refl, kept, rw same at off)

-- A report that both starts and ends a run.
abbrev pub is_halted : Report → Bool
is_halted st = (state_eq st.state alarm || state_eq st.state sleep) && ltb 0 (length st.progress)

halted-starts :
    (h : History) (st : Report) (now : ℕ)
    → is_halted st ≡ true
    → (starts_run h st now ≡ true) × (ends_run st ≡ true)
unfolding starts_run ends_run
halted-starts h st now t = ground arith

-- The runs once one is opened.
opened-front :
    (h : History) (st : Report) (now : ℕ)
    → is_marked h.runs ≡ false
    → quiet_front (start_run h st now).runs ≡ true
unfolding start_run last_n
opened-front h st now quiet = quiet_front-drop _ _ (quiet_front-snoc h.runs _ quiet)

opened-ids :
    (h : History) (st : Report) (now : ℕ)
    → ids (start_run h st now).runs ≡ last_n h.cap (ids h.runs ++ (h.next_id ∷ []))
unfolding start_run ids add_transition
opened-ids h st now = ids-last_n h.cap _ ∙ ap (last_n h.cap) (ids-append h.runs _)

halted-opens :
    (h : History) (clock : ℕ) (st : Report)
    → h.active ≡ none
    → is_marked h.runs ≡ false
    → is_halted st ≡ true
    → let o = observe_report h clock st in
      (o.active ≡ none)
      × (o.cap ≡ h.cap)
      × (o.next_id ≡ after h.next_id)
      × (ids o.runs ≡ last_n h.cap (ids h.runs ++ (h.next_id ∷ [])))
      × (is_marked o.runs ≡ false)
unfolding observe_report start_run ids
halted-opens h clock st off quiet t =
    let now = if st.observed_at == 0 then clock else st.observed_at in
    let s = halted-starts h st now t in
    let o = track-ends (start_run h st now) st now (opened-front h st now quiet) s.1 in
    rw (off, s.0) (o.0, o.1, o.2, o.3 ∙ opened-ids h st now, o.4)

-- The reports with the time of each.
unfoldable pub observe_reports : History → List (ℕ × Report) → History
observe_reports h [] = h
observe_reports h ((clock, st) ∷ reports) = observe_reports (observe_report h clock st) reports

last_n_idem : (n : ℕ) (xs : List ℕ) → last_n n (last_n n xs) ≡ last_n n xs
last_n_idem n xs = last_n-short n (last_n n xs) (length-last_n n xs)

last_n-append : (n : ℕ) (xs ys : List ℕ) → last_n n (last_n n xs ++ ys) ≡ last_n n (xs ++ ys)
last_n-append n xs [] =
    ap (last_n n) (append-nil (last_n n xs))
    ∙ last_n_idem n xs
    ∙ ap (last_n n) (sym (append-nil xs))
last_n-append n xs (y ∷ ys) =
    let front : last_n n ((last_n n xs ++ (y ∷ [])) ++ ys) ≡ last_n n ((xs ++ (y ∷ [])) ++ ys) =
      sym (last_n-append n (last_n n xs ++ (y ∷ [])) ys)
      ∙ ap (λ t. last_n n (t ++ ys)) (last_n-snoc n xs y)
      ∙ last_n-append n (xs ++ (y ∷ [])) ys in
    ap (last_n n) (sym (append_assoc (last_n n xs) (y ∷ []) ys))
    ∙ front
    ∙ ap (last_n n) (append_assoc xs (y ∷ []) ys)

-- While no run is active, every report of the states Alarm or Sleep that has a progress record opens a run of its own
-- and ends it: as many runs stand behind those that were there as there are reports, with the numbers that follow,
-- less the oldest runs beyond the capacity, and none of the runs is marked as active or pointed to.
pub halted_reports_open_runs :
    (h : History) (reports : List (ℕ × Report))
    → h.active ≡ none
    → is_marked h.runs ≡ false
    → length h.runs ≤ h.cap
    → All (λ (r : ℕ × Report). is_halted r.1 ≡ true) reports
    → let o = observe_reports h reports in
      (o.active ≡ none)
      × (is_marked o.runs ≡ false)
      × (ids o.runs ≡ last_n h.cap (ids h.runs ++ numbers h.next_id (length reports)))
      × (o.next_id ≡ number_after h.next_id (length reports))
unfolding observe_reports numbers number_after
halted_reports_open_runs h [] off quiet room all =
    let short : length (ids h.runs ++ []) ≤ h.cap =
      omega (arith, length-append (ids h.runs) [], length-ids h.runs) in
    (off, quiet, sym (last_n-short h.cap (ids h.runs ++ []) short ∙ append-nil (ids h.runs)), refl)
halted_reports_open_runs h ((clock, st) ∷ reports) off quiet room all =
    let o = observe_report h clock st in
    let (off', cap', next', ids', quiet') = halted-opens h clock st off quiet all.0 in
    let k = length reports in
    let shown : length (ids o.runs) ≤ h.cap =
      omega (arith, ap length ids', length-last_n h.cap (ids h.runs ++ (h.next_id ∷ []))) in
    let room' : length o.runs ≤ o.cap = omega (arith, shown, length-ids o.runs, cap') in
    let (a, b, c, d) = halted_reports_open_runs o reports off' quiet' room' all.1 in
    let more =
      ap (λ (t : ℕ). last_n t (ids o.runs ++ numbers o.next_id k)) cap'
      ∙ ap (λ t. last_n h.cap (t ++ numbers o.next_id k)) ids'
      ∙ last_n-append h.cap (ids h.runs ++ (h.next_id ∷ [])) (numbers o.next_id k)
      ∙ ap (last_n h.cap) (append_assoc (ids h.runs) (h.next_id ∷ []) (numbers o.next_id k))
      ∙ ap (λ n. last_n h.cap (ids h.runs ++ (h.next_id ∷ numbers n k))) next' in
    (a, b, c ∙ more, d ∙ ap (λ n. number_after n k) next')
