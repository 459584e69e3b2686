-- ===== src/Attention/Writes.antt =====
-- internal/attention/attention.go: the invariant of the monitor, and writes to the active event.
use makera_cnc_controller.Base.{
  ℕ, ◌≤◌, ◌≡◌, refl, sym, ap, ◌∙◌, Bool, true, false, ◌&&◌, ◌||◌, Option, none, some, if◌then◌else◌,
  length, arith, is_some,
}
use makera_cnc_controller.Machine.{
  State, unknown, idle, run, hold, alarm, sleep, home, pause, wait, tool,
}
use makera_cnc_controller.Attention.{
  Monitor, Event, Context, Change, plain_kind, kind_for_status, publish, active_event, write_active,
}
use makera_cnc_controller.Attention.Marks.{
  quiet, marks, marked-found, write_at-marked, event_at-active, length-write_at,
}

-- The states in which the machine needs a human.
abbrev pub needs_attention : State → Bool
needs_attention tool = true
needs_attention pause = true
needs_attention wait = true
needs_attention hold = true
needs_attention alarm = true
needs_attention _ = false

pub kind-needs :
    (st : State) (ctx : Context) → is_some (kind_for_status st ctx) ≡ needs_attention st
unfolding kind_for_status plain_kind
kind-needs tool ctx = ground arith
kind-needs pause ctx = ground arith
kind-needs wait ctx = ground arith
kind-needs hold ctx = ground arith
kind-needs alarm ctx = ground arith
kind-needs unknown ctx = ground arith
kind-needs idle ctx = ground arith
kind-needs run ctx = ground arith
kind-needs sleep ctx = ground arith
kind-needs home ctx = ground arith

-- What holds between two reports.
pub record Sound (m : Monitor) : Type 0 where
  pub room : 1 ≤ m.cap
  pub bounded : length m.events ≤ m.cap
  pub marks_active : marks m.active m.events ≡ true
  pub episode : is_some m.active ≡ needs_attention m.last_state

-- A write to the active event.
pub record Written (m : Monitor) (e : Event) : Type 0 where
  pub cap : (write_active m e).cap ≡ m.cap
  pub active : (write_active m e).active ≡ m.active
  pub last_state : (write_active m e).last_state ≡ m.last_state
  pub events : length (write_active m e).events ≡ length m.events
  pub marks_active :
      (if e.is_active
        then marks m.active (write_active m e).events
        else is_some m.active && quiet (write_active m e).events)
      ≡ is_some m.active || e.is_active

pub write-Written : (m : Monitor) (e : Event) → marks m.active m.events ≡ true → Written m e
unfolding write_active
write-Written m e h = step m.active refl
  where
    step : (a : Option ℕ) → m.active ≡ a → Written m e
    step none eq = record {
      cap = ground (arith, eq);
      active = ground (arith, eq);
      last_state = ground (arith, eq);
      events = ground (arith, eq);
      marks_active = ground (arith, eq, h);
    }
    step (some i) eq = record {
      cap = ground (arith, eq);
      active = ground (arith, eq);
      last_state = ground (arith, eq);
      events = ground (arith, eq, length-write_at i e m.events);
      marks_active = ground (arith, eq, h, write_at-marked i e m.events);
    }

pub active_event-cases :
    (m : Monitor) → marks m.active m.events ≡ true → is_some (active_event m) ≡ is_some m.active
unfolding active_event
active_event-cases m h = step m.active refl
  where
    step : (a : Option ℕ) → m.active ≡ a → is_some (active_event m) ≡ is_some m.active
    step none eq = ground (arith, eq)
    step (some i) eq = ground (arith, eq, marked-found i m.events)

pub active_event-active :
    (m : Monitor) (e : Event)
    → marks m.active m.events ≡ true
    → active_event m ≡ some e
    → e.is_active ≡ true
unfolding active_event
active_event-active m e h found = step m.active refl
  where
    step : (a : Option ℕ) → m.active ≡ a → e.is_active ≡ true
    step none eq = ground (arith, eq)
    step (some i) eq = ground (arith, eq, event_at-active i e m.events)

pub marks_still :
    (m : Monitor) (e : Event)
    → Written m e
    → e.is_active ≡ true
    → marks m.active (write_active m e).events ≡ true
marks_still m e w on = ground (arith, w.marks_active)

-- A monitor whose active event has been written, and is active still.
pub Written-Sound :
    (m n : Monitor) (e : Event)
    → Written m e
    → e.is_active ≡ true
    → is_some m.active ≡ true
    → Sound m
    → n.cap ≡ m.cap
    → n.events ≡ (write_active m e).events
    → n.active ≡ m.active
    → is_some m.active ≡ needs_attention n.last_state
    → Sound n
Written-Sound m n e w on some_active s cap events active last = record {
  room = ground (arith, s.room, cap);
  bounded = ground (arith, s.bounded, cap, ap length events, w.events);
  marks_active = rw (active, events) (marks_still m e w on);
  episode = ap is_some active ∙ last;
}

pub pick-Sound : (b : Bool) (x y : Monitor) → Sound x → Sound y → Sound (if b then x else y)
pick-Sound true x y h k = h
pick-Sound false x y h k = k

pub none-active :
    (m : Monitor) → Sound m → is_some m.active ≡ false → (m.active ≡ none) × (quiet m.events ≡ true)
none-active m s nothing = step m.active refl
  where
    step : (a : Option ℕ) → m.active ≡ a → (m.active ≡ none) × (quiet m.events ≡ true)
    step none eq = (eq, sym (ap (λ (a : Option ℕ). marks a m.events) eq) ∙ s.marks_active)
    step (some i) eq = absurd (ground (arith, eq, nothing))

pub publish-Sound : (m : Monitor) (c : Change) → Sound m → Sound (publish m c)
unfolding publish
publish-Sound m c s = record {
  room = s.room;
  bounded = s.bounded;
  marks_active = s.marks_active;
  episode = s.episode;
}
