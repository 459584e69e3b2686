-- ===== src/Runhistory/Bounds.antt =====
-- internal/runhistory/runhistory.go: the history stays within its capacity, and its pointer within the history.
use makera_cnc_controller.Base.{
  ℕ, zero, suc, ◌+◌, ◌-◌, ◌≤◌, ◌≡◌, refl, ap, Bool, true, false, not, ◌&&◌, Option, none, some,
  List, [], ◌∷◌, ◌++◌, ltb, ◌==◌, if◌then◌else◌, length, arith, is_some, length-drop, length-append,
  length-keep_if-le, keep_if,
}
use makera_cnc_controller.Base.Text.{Text, text_eq}
use makera_cnc_controller.Gcodelog.{last_n}
use makera_cnc_controller.Runhistory.{
  History, new_history, Run, Report, change_run, change_active, extract_run_file, observe_line,
}
use makera_cnc_controller.Runhistory.Runs.{
  starts_run, ends_run, start_run, update_run, update_active_run, end_run, track_run,
  observe_report, clear, replace_runs, is_unattributed_short_motion, last_active,
}

-- The operations of the history.
pub data HistoryOp : Type 0 where
  lines : ℕ → Text → Text → HistoryOp
  reports : ℕ → Report → HistoryOp
  clears : HistoryOp
  imports : List Run → HistoryOp

unfoldable pub apply_history : History → HistoryOp → History
apply_history h (lines now source text) = observe_line h now source text
apply_history h (reports clock st) = observe_report h clock st
apply_history h clears = clear h
apply_history h (imports runs) = replace_runs h runs

unfoldable pub apply_histories : History → List HistoryOp → History
unfolding apply_history
apply_histories h [] = h
apply_histories h (op ∷ ops) = apply_histories (apply_history h op) ops

-- The index is that of a run.
abbrev pub within : Option ℕ → ℕ → Bool
within none n = true
within (some i) n = ltb i n

record Bounded (h : History) : Type 0 where
  room : 1 ≤ h.cap
  size : length h.runs ≤ h.cap
  index : within h.active (length h.runs) ≡ true

pub length-change_run :
    (i : ℕ) (f : Run → Run) (rs : List Run) → length (change_run i f rs) ≡ length rs
unfolding change_run
length-change_run i f [] = refl
length-change_run zero f (r ∷ rs) = refl
length-change_run (suc i) f (r ∷ rs) = ap suc (length-change_run i f rs)

change_active-Bounded : (h : History) (f : Run → Run) → Bounded h → Bounded (change_active h f)
unfolding change_active
change_active-Bounded h f b = step h.active refl
  where
    step : (a : Option ℕ) → h.active ≡ a → Bounded (change_active h f)
    step none eq = rw (eq, change_active) b
    step (some i) eq =
        rw (eq, change_active)
          (record {
            room = b.room;
            size = rw (length-change_run i f h.runs) b.size;
            index = rw (length-change_run i f h.runs) b.index;
          })

pick-Bounded : (t : Bool) (x y : History) → Bounded x → Bounded y → Bounded (if t then x else y)
pick-Bounded true x y b c = b
pick-Bounded false x y b c = c

pub length-last_n : {A : Type 0} (n : ℕ) (rs : List A) → length (last_n n rs) ≤ n
unfolding last_n
length-last_n n rs = omega (arith, length-drop (length rs - n) rs)

length-last_n-snoc :
    (n : ℕ) (rs : List Run) (r : Run) → 1 ≤ n → 1 ≤ length (last_n n (rs ++ (r ∷ [])))
unfolding last_n
length-last_n-snoc n rs r h = omega (
  arith,
  h,
  length-append rs (r ∷ []),
  length-drop (length (rs ++ (r ∷ [])) - n) (rs ++ (r ∷ [])),
)

below : (n : ℕ) → 1 ≤ n → ltb (n - 1) n ≡ true
below n h = ground arith

start_run-Bounded : (h : History) (st : Report) (now : ℕ) → Bounded h → Bounded (start_run h st now)
unfolding start_run
start_run-Bounded h st now b = record {
  room = b.room;
  size = length-last_n h.cap _;
  index = below _ (length-last_n-snoc h.cap h.runs _ b.room);
}

last_active-within :
    (i n : ℕ) (found : Option ℕ) (rs : List Run)
    → n ≡ i + length rs
    → within found i ≡ true
    → within (last_active i found rs) n ≡ true
unfolding last_active
last_active-within i n found [] e h = ground (arith, e, h)
last_active-within i n found (r ∷ rs) e h =
    last_active-within (suc i) n (if r.is_active then some i else found) rs (omega (arith, e))
      (later r.is_active i found h)
  where
    later :
        (t : Bool) (i : ℕ) (found : Option ℕ)
        → within found i ≡ true
        → within (if t then some i else found) (suc i) ≡ true
    later true i found h = ground arith
    later false i none h = refl
    later false i (some j) h = ground (arith, h)

track_run-Bounded : (h : History) (st : Report) (now : ℕ) → Bounded h → Bounded (track_run h st now)
unfolding track_run update_active_run end_run
track_run-Bounded h st now b =
    let u = change_active-Bounded h (update_run h st now) b in
    let v : Bounded (update_active_run h st now) = record {
      room = u.room;
      size = u.size;
      index = u.index;
    } in
    let e = change_active-Bounded (update_active_run h st now) _ v in
    pick-Bounded (is_some h.active) _ _
      (pick-Bounded (ends_run st) _ _ (record { room = e.room; size = e.size; index = refl }) v) b

observe_report-Bounded :
    (h : History) (clock : ℕ) (st : Report) → Bounded h → Bounded (observe_report h clock st)
unfolding observe_report
observe_report-Bounded h clock st b =
    let now = if st.observed_at == 0 then clock else st.observed_at in
    let started = if not (is_some h.active) && starts_run h st now then start_run h st now else h in
    let t = track_run-Bounded started st now (
      pick-Bounded (not (is_some h.active) && starts_run h st now) _ _
        (start_run-Bounded h st now b) b) in
    record { room = t.room; size = t.size; index = t.index }

observe_line-Bounded :
    (h : History) (now : ℕ) (source text : Text)
    → Bounded h
    → Bounded (observe_line h now source text)
unfolding observe_line
observe_line-Bounded h now source text b = change_active-Bounded _ _ (
    pick-Bounded (text_eq (extract_run_file text) []) _ _ b
      (change_active-Bounded _ _ (record { room = b.room; size = b.size; index = b.index })))

replace_runs-Bounded : (h : History) (runs : List Run) → Bounded h → Bounded (replace_runs h runs)
unfolding replace_runs
replace_runs-Bounded h runs b =
    let kept = keep_if (λ (r : Run). not (is_unattributed_short_motion r)) (last_n h.cap runs) in
    record {
      room = b.room;
      size = omega (
        arith,
        length-last_n h.cap runs,
        length-keep_if-le (λ (r : Run). not (is_unattributed_short_motion r)) (last_n h.cap runs),
      );
      index = last_active-within 0 (length kept) none kept (omega arith) refl;
    }

apply_history-Bounded : (h : History) (op : HistoryOp) → Bounded h → Bounded (apply_history h op)
unfolding apply_history clear
apply_history-Bounded h (lines now source text) b = observe_line-Bounded h now source text b
apply_history-Bounded h (reports clock st) b = observe_report-Bounded h clock st b
apply_history-Bounded h clears b = record { room = b.room; size = omega arith; index = refl }
apply_history-Bounded h (imports runs) b = replace_runs-Bounded h runs b

apply_histories-Bounded :
    (ops : List HistoryOp) (h : History) → Bounded h → Bounded (apply_histories h ops)
unfolding apply_histories
apply_histories-Bounded [] h b = b
apply_histories-Bounded (op ∷ ops) h b =
    apply_histories-Bounded ops (apply_history h op) (apply_history-Bounded h op b)

new_history-Bounded : (capacity : ℕ) → Bounded (new_history capacity)
unfolding new_history
new_history-Bounded capacity = record { room = ground arith; size = ground arith; index = refl }

-- After any lines, reports, imports and clearings of a new history, it has no more runs than its capacity, and the
-- pointer to the active run, where there is one, is to a run that the history has.
pub history_bounds :
    (capacity : ℕ) (ops : List HistoryOp)
    → let h = apply_histories (new_history capacity) ops in
      (length h.runs ≤ h.cap) × (within h.active (length h.runs) ≡ true)
history_bounds capacity ops =
    let b = apply_histories-Bounded ops (new_history capacity) (new_history-Bounded capacity) in
    (b.size, b.index)
