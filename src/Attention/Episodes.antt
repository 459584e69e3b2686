-- ===== src/Attention/Episodes.antt =====
-- internal/attention/attention.go: an event is active exactly while the machine needs a human.
use makera_cnc_controller.Base.{
  ℕ, ◌≤◌, ◌≡◌, refl, sym, ap, ◌∙◌, Bool-cases, inl, inr, true, false, Option, none, some, List, [],
  ◌∷◌, ◌==◌, if◌then◌else◌, length, arith, is_some,
}
use makera_cnc_controller.Base.Text.{Text}
use makera_cnc_controller.Attention.{
  Monitor, new_monitor, Event, Report, Context, Kind, rotary_index, state_eq, plain_kind,
  kind_for_status, publish, active_event, write_active,
}
use makera_cnc_controller.Attention.Observing.{
  add_details, update_active, repeat_state, continue_episode, resolve_active, open_event,
  change_state, observe_state, observe_status,
}
use makera_cnc_controller.Attention.Marks.{quiet, marks, recent-marked}
use makera_cnc_controller.Attention.Writes.{
  kind-needs, needs_attention, Sound, write-Written, active_event-cases, active_event-active,
  Written-Sound, pick-Sound, none-active, publish-Sound,
}

module _ (base : Text → Text) where
  add_details-active :
      (e : Event) (st : Report) (ctx : Context)
      → (add_details base e st ctx).0.is_active ≡ e.is_active
  unfolding add_details
  add_details-active e st ctx = refl

  written-details :
      (m : Monitor) (e : Event) (st : Report) (ctx : Context)
      → Sound m
      → e.is_active ≡ true
      → is_some m.active ≡ true
      → Sound (write_active m (add_details base e st ctx).0)
  written-details m e st ctx s on there =
      let e' = (add_details base e st ctx).0 in
      let w = write-Written m e' s.marks_active in
      Written-Sound m (write_active m e') e' w (add_details-active e st ctx ∙ on) there s w.cap refl
        w.active (s.episode ∙ ap needs_attention (sym w.last_state))

  update_active-Sound :
      (m : Monitor) (e : Event) (st : Report) (ctx : Context)
      → Sound m
      → e.is_active ≡ true
      → is_some m.active ≡ true
      → Sound (update_active base m e st ctx).0
  unfolding update_active
  update_active-Sound m e st ctx s on there = elim (Bool-cases (state_eq e.state st.state)) [
    | inl t ↦ rw (t, update_active) (written-details m e st ctx s on there)
    | inr f ↦ rw (f, update_active) s
  ]

  update_active-active :
      (m : Monitor) (e : Event) (st : Report) (ctx : Context)
      → Sound m
      → (update_active base m e st ctx).0.active ≡ m.active
  unfolding update_active
  update_active-active m e st ctx s = elim (Bool-cases (state_eq e.state st.state)) [
    | inl t ↦
        rw (t, update_active) (write-Written m (add_details base e st ctx).0 s.marks_active).active
    | inr f ↦ rw (f, update_active) refl
  ]

  repeat-Sound :
      (m : Monitor) (st : Report) (ctx : Context) → Sound m → Sound (repeat_state base m st ctx)
  unfolding repeat_state
  repeat-Sound m st ctx s = step (active_event m) refl
    where
      step : (a : Option Event) → active_event m ≡ a → Sound (repeat_state base m st ctx)
      step none eq = rw (eq, repeat_state) s
      step (some e) eq =
          let on = active_event-active m e s.marks_active eq in
          let there : is_some m.active ≡ true =
            sym (active_event-cases m s.marks_active) ∙ ap is_some eq in
          let updated = update_active-Sound m e st ctx s on there in
          rw (eq, repeat_state) (pick-Sound _ _ _ (publish-Sound _ _ updated) updated)

  -- With the state that follows.
  continue-Sound :
      (m : Monitor) (e : Event) (kind : Kind) (st : Report) (ctx : Context)
      → Sound m
      → e.is_active ≡ true
      → is_some m.active ≡ true
      → needs_attention st.state ≡ true
      → Sound (continue_episode base m e kind st ctx)
  unfolding continue_episode
  continue-Sound m e kind st ctx s on there needs =
      let turned : Event = record e {
        state = st.state;
        kind = elim kind [ rotary_index ↦ rotary_index | _ ↦ e.kind ];
      } in
      let w = write-Written m turned s.marks_active in
      let m1 = write_active m turned in
      let there1 : is_some m1.active ≡ true = ap is_some w.active ∙ there in
      let s1 =
        Written-Sound m m1 turned w on there s w.cap refl w.active
          (s.episode ∙ ap needs_attention (sym w.last_state)) in
      let s2 = update_active-Sound m1 turned st ctx s1 on there1 in
      record {
        room = s2.room;
        bounded = s2.bounded;
        marks_active = s2.marks_active;
        episode = ap is_some (update_active-active m1 turned st ctx s1) ∙ there1 ∙ sym needs;
      }

  resolved-Kept :
      (m : Monitor) (e : Event) (now : ℕ)
      → Sound m
      → is_some m.active ≡ true
      → let n = resolve_active base m e now in
        (n.cap ≡ m.cap)
        × (length n.events ≡ length m.events)
        × (quiet n.events ≡ true)
        × (n.active ≡ none)
  unfolding resolve_active publish
  resolved-Kept m e now s there =
      let resolved : Event = record e { is_active = false; resolved_at = some now } in
      let w = write-Written m resolved s.marks_active in
      (w.cap, w.events, ground (arith, w.marks_active, there), refl)

  -- What opens in a monitor without an active event.
  open-Sound :
      (m : Monitor) (kind : Kind) (st : Report) (ctx : Context) (now : ℕ)
      → 1 ≤ m.cap
      → length m.events ≤ m.cap
      → quiet m.events ≡ true
      → needs_attention m.last_state ≡ true
      → Sound (open_event base m kind st ctx now)
  unfolding open_event publish
  open-Sound m kind st ctx now room bounded still needs =
      let kept = recent-marked m.cap m.events _ room refl still in
      record { room = room; bounded = kept.0; marks_active = kept.1; episode = sym needs }

  -- A monitor without an active event, once the state is moved and an event opens if it is to.
  begin-Sound :
      (m : Monitor) (kind : Option Kind) (st : Report) (ctx : Context) (now : ℕ)
      → (1 ≤ m.cap) × (length m.events ≤ m.cap) × (quiet m.events ≡ true) × (m.active ≡ none)
      → is_some kind ≡ needs_attention st.state
      → Sound (elim kind [
        | none ↦ record m { last_state = st.state }
        | some k ↦ open_event base (record m { last_state = st.state }) k st ctx now
      ])
  begin-Sound m none st ctx now k needs = record {
    room = k.0;
    bounded = k.1;
    marks_active = rw k.3 k.2;
    episode = ap is_some k.3 ∙ needs;
  }
  begin-Sound m (some kind) st ctx now k needs =
      open-Sound (record m { last_state = st.state }) kind st ctx now k.0 k.1 k.2 (sym needs)

  change-Sound :
      (m : Monitor) (active : Option Event) (kind : Option Kind) (st : Report) (ctx : Context)
      (now : ℕ)
      → Sound m
      → active_event m ≡ active
      → is_some kind ≡ needs_attention st.state
      → Sound (change_state base m active kind st ctx now)
  unfolding change_state
  change-Sound m none kind st ctx now s found needs =
      let nothing : is_some m.active ≡ false =
        sym (active_event-cases m s.marks_active) ∙ ap is_some found in
      let free = none-active m s nothing in
      begin-Sound m kind st ctx now (s.room, s.bounded, free.1, free.0) needs
  change-Sound m (some e) kind st ctx now s found needs =
      let there : is_some m.active ≡ true =
        sym (active_event-cases m s.marks_active) ∙ ap is_some found in
      let n = resolve_active base m e now in
      let k = resolved-Kept m e now s there in
      begin-Sound n kind st ctx now
        (omega (arith, k.0, s.room), omega (arith, k.0, k.1, s.bounded), k.2, k.3) needs

  observe-Sound :
      (m : Monitor) (active : Option Event) (kind : Option Kind) (st : Report) (ctx : Context)
      (now : ℕ)
      → Sound m
      → active_event m ≡ active
      → is_some kind ≡ needs_attention st.state
      → Sound (observe_state base m active kind st ctx now)
  unfolding observe_state
  observe-Sound m none kind st ctx now s found needs =
      change-Sound m none kind st ctx now s found needs
  observe-Sound m (some e) none st ctx now s found needs =
      change-Sound m (some e) none st ctx now s found needs
  observe-Sound m (some e) (some kind) st ctx now s found needs =
      let there : is_some m.active ≡ true =
        sym (active_event-cases m s.marks_active) ∙ ap is_some found in
      pick-Sound _ _ _
        (continue-Sound m e kind st ctx s (active_event-active m e s.marks_active found) there
          (sym needs))
        (change-Sound m (some e) (some kind) st ctx now s found needs)

  observe_status-Sound :
      (clock : ℕ) (m : Monitor) (st : Report) (ctx : Context)
      → Sound m
      → Sound (observe_status base clock m st ctx)
  unfolding observe_status
  observe_status-Sound clock m st ctx s =
      let now = if st.observed_at == 0 then clock else st.observed_at in
      pick-Sound _ _ _ (repeat-Sound m st ctx s) (
        observe-Sound m (active_event m) (kind_for_status st.state ctx) st ctx now s refl
          (kind-needs st.state ctx))

-- A run of the monitor: reports with what is known of the job and the time of each.
unfoldable pub observe_all : (Text → Text) → Monitor → List (ℕ × Report × Context) → Monitor
observe_all base m [] = m
observe_all base m ((clock, st, ctx) ∷ reports) =
    observe_all base (observe_status base clock m st ctx) reports

observe_all-Sound :
    (base : Text → Text) (reports : List (ℕ × Report × Context)) (m : Monitor)
    → Sound m
    → Sound (observe_all base m reports)
unfolding observe_all
observe_all-Sound base [] m s = s
observe_all-Sound base ((clock, st, ctx) ∷ reports) m s =
    observe_all-Sound base reports (observe_status base clock m st ctx)
      (observe_status-Sound base clock m st ctx s)

new_monitor-Sound : (capacity : ℕ) → Sound (new_monitor capacity)
unfolding new_monitor quiet plain_kind
new_monitor-Sound capacity = record {
  room = ground arith;
  bounded = ground arith;
  marks_active = refl;
  episode = refl;
}

-- After any reports to a new monitor, an event is active exactly if the state that was last reported needs a human
-- (tool, pause, wait, hold or alarm), then the index of the active event is that of an event which is marked as
-- active, no other event is so marked, and no more events are kept than the capacity.
pub attention_episodes :
    (base : Text → Text) (capacity : ℕ) (reports : List (ℕ × Report × Context))
    → let m = observe_all base (new_monitor capacity) reports in
      (is_some m.active ≡ needs_attention m.last_state)
      × (marks m.active m.events ≡ true)
      × (length m.events ≤ m.cap)
attention_episodes base capacity reports =
    let s = observe_all-Sound base reports (new_monitor capacity) (new_monitor-Sound capacity) in
    (s.episode, s.marks_active, s.bounded)
