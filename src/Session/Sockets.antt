-- ===== src/Session/Sockets.antt =====
-- internal/session/arbiter.go: the owner's sockets under every interleaving of the arbiter's sections. A
-- step is one section under the mutex together with the close that follows it, or the end of a dial.
use makera_cnc_controller.Base.{
  ℕ, ◌≡◌, refl, sym, ap, ◌∙◌, Bool, true, false, not, ◌&&◌, ◌||◌, Option, none, some, ==_iff, ◌==◌,
  Bool-cases, arith, inl, inr,
}
use makera_cnc_controller.Session.{
  Arbiter, Mode, is_conn, is_relay, owner, relay, new_arbiter, enter_relay, exit_relay, Installed,
  install, install_owner, acquire_install, control_install, drop_owner_conn,
}

-- `open` holds of the owner's sockets to the machine; `dialing` of those that a caller has dialed and not
-- yet brought to the arbiter.
pub record Net : Type 0 where
  pub arbiter : Arbiter
  pub open_conn : ℕ → Bool
  pub dialing : ℕ → Bool

unfoldable pub new_net : Net
new_net = record { arbiter = new_arbiter; open_conn = λ _. false; dialing = λ _. false }

pub data Section : Type 0 where
  entered exited : Section
  dialed acquired controlled dropped : ℕ → Section

unfoldable pub without : Option ℕ → (ℕ → Bool) → ℕ → Bool
without c f d = not (is_conn d c) && f d

brought : ℕ → Net → Installed → Net
unfolding without
brought c n i = record {
  arbiter = i.arbiter;
  open_conn = without i.to_close n.open_conn;
  dialing = without (some c) n.dialing;
}

unfoldable pub run_section : Section → Net → Net
unfolding brought without
run_section entered n =
    let (a, to_close) = enter_relay n.arbiter in
    record n { arbiter = a; open_conn = without to_close n.open_conn }
run_section exited n = record n { arbiter = exit_relay n.arbiter }
run_section (dialed c) n = record n {
  open_conn = λ d. d == c || n.open_conn d;
  dialing = λ d. d == c || n.dialing d;
}
run_section (acquired c) n = brought c n (acquire_install n.arbiter c)
run_section (controlled c) n = brought c n (control_install n.arbiter c)
run_section (dropped c) n =
    let (a, to_close) = drop_owner_conn n.arbiter c in
    record n { arbiter = a; open_conn = without to_close n.open_conn }

-- A dial gives a socket that is not open yet, and only a dialed socket is brought to the arbiter.
unfoldable pub Allowed : Section → Net → Type 0
Allowed (dialed c) n = n.open_conn c ≡ false
Allowed (acquired c) n = n.dialing c ≡ true
Allowed (controlled c) n = n.dialing c ≡ true
Allowed entered n = true ≡ true
Allowed exited n = true ≡ true
Allowed (dropped c) n = true ≡ true

pub data Reachable : Net → Type 0 where
  start : Reachable new_net
  step : (s : Section) (n : Net) → Reachable n → Allowed s n → Reachable (run_section s n)

pub record Owned (n : Net) : Type 0 where
  pub accounted : (c : ℕ) → n.open_conn c ≡ n.dialing c || is_conn c n.arbiter.owner_conn
  pub apart : (c : ℕ) → n.dialing c && is_conn c n.arbiter.owner_conn ≡ false
  pub quiet : is_relay n.arbiter.mode ≡ true → n.arbiter.owner_conn ≡ none

abbrev net : Mode → Option ℕ → ℕ → (ℕ → Bool) → (ℕ → Bool) → Net
net m oc k f g = record {
  arbiter = record { mode = m; owner_conn = oc; connection_generation = k };
  open_conn = f;
  dialing = g;
}

-- Bool facts of one socket: it is open, dialed, the owner's, and the one that a step is about.
closed_owner : (a b x : Bool) → a ≡ b || x → b && x ≡ false → not x && a ≡ b || false
closed_owner a b x h q = ground arith

taken : (a b x : Bool) → a ≡ b || false → (x ≡ true → b ≡ true) → a ≡ not x && b || x
taken a b x h q = ground arith

apart_taken : (b x : Bool) → (not x && b) && x ≡ false
apart_taken b x = ground arith

rejected :
    (a b x y : Bool)
    → a ≡ b || y
    → b && y ≡ false
    → (x ≡ true → b ≡ true)
    → not x && a ≡ not x && b || y
rejected a b x y h q r = ground arith

still_apart : (b x y : Bool) → b && y ≡ false → (not x && b) && y ≡ false
still_apart b x y h = ground arith

or_true : (b y : Bool) → y ≡ true → b || y ≡ true
or_true b y h = ground arith

-- A fact about one number, at an equal one.
at_equal : (f : ℕ → Bool) (b : Bool) (c d : ℕ) → f c ≡ b → d == c ≡ true → f d ≡ b
at_equal f b c d h e = ap f ((==_iff d c).0 e) ∙ h

at_equal_of : (f : ℕ → Bool) (b : Bool) (c d : ℕ) → f c ≡ b → c == d ≡ true → f d ≡ b
at_equal_of f b c d h e = sym (ap f ((==_iff c d).0 e)) ∙ h

more : (a b x y : Bool) → a ≡ b || y → x || a ≡ (x || b) || y
more a b x y h = ground arith

more_apart :
    (a b x y : Bool) → a ≡ b || y → b && y ≡ false → (x ≡ true → a ≡ false) → (x || b) && y ≡ false
more_apart a b x y h q r = ground arith

none_apart : (b : Bool) → b && false ≡ false
none_apart b = ground arith

entered-Owned :
    (m : Mode) (oc : Option ℕ) (k : ℕ) (f g : ℕ → Bool)
    → Owned (net m oc k f g)
    → Owned (run_section entered (net m oc k f g))
unfolding run_section without enter_relay
entered-Owned m none k f g o = record {
  accounted = λ c. o.accounted c;
  apart = λ c. none_apart (g c);
  quiet = λ _. refl;
}
entered-Owned m (some d) k f g o = record {
  accounted = λ c. closed_owner _ _ _ (o.accounted c) (o.apart c);
  apart = λ c. none_apart (g c);
  quiet = λ _. refl;
}

install-Owned :
    (bump c : ℕ) (m : Mode) (oc : Option ℕ) (k : ℕ) (f g : ℕ → Bool)
    → Owned (net m oc k f g)
    → g c ≡ true
    → Owned (brought c (net m oc k f g) (install bump (net m oc k f g).arbiter c))
unfolding brought without install install_owner
install-Owned bump c relay none k f g o h = record {
  accounted = λ d.
      rejected _ _ (c == d) false (o.accounted d) (none_apart (g d)) (at_equal_of g true c d h);
  apart = λ d. none_apart _;
  quiet = λ _. refl;
}
install-Owned bump c relay (some x) k f g o h = ground arith
install-Owned bump c owner none k f g o h = record {
  accounted = λ d. taken (f d) (g d) (c == d) (o.accounted d) (at_equal_of g true c d h);
  apart = λ d. apart_taken (g d) (c == d);
  quiet = λ q. ground arith;
}
install-Owned bump c owner (some x) k f g o h = record {
  accounted =
      λ d. rejected _ _ (c == d) (x == d) (o.accounted d) (o.apart d) (at_equal_of g true c d h);
  apart = λ d. still_apart (g d) (c == d) (x == d) (o.apart d);
  quiet = λ q. ground arith;
}

dropped-Owned :
    (c : ℕ) (m : Mode) (oc : Option ℕ) (k : ℕ) (f g : ℕ → Bool)
    → Owned (net m oc k f g)
    → Owned (run_section (dropped c) (net m oc k f g))
unfolding run_section without drop_owner_conn
dropped-Owned c m none k f g o = o
dropped-Owned c m (some x) k f g o = elim (Bool-cases (x == c)) [
  | inl e ↦ rw e record {
    accounted = λ d.
        rw (ap (λ y. y == d) (sym ((==_iff x c).0 e)))
          (closed_owner _ _ _ (o.accounted d) (o.apart d));
    apart = λ d. none_apart (g d);
    quiet = λ _. refl;
  }
  | inr e ↦ rw e o
]

new_net-Owned : Owned new_net
unfolding new_net new_arbiter
new_net-Owned = record { accounted = λ _. refl; apart = λ _. refl; quiet = λ _. refl }

run_section-Owned : (s : Section) (n : Net) → Owned n → Allowed s n → Owned (run_section s n)
unfolding run_section brought without Allowed enter_relay exit_relay acquire_install control_install
    drop_owner_conn install install_owner
run_section-Owned entered n o _ =
    entered-Owned n.arbiter.mode n.arbiter.owner_conn n.arbiter.connection_generation n.open_conn
      n.dialing o
run_section-Owned exited n o _ = record {
  accounted = o.accounted;
  apart = o.apart;
  quiet = λ h. ground arith;
}
run_section-Owned (dialed c) n o h = record {
  accounted = λ d. more _ _ (d == c) _ (o.accounted d);
  apart =
      λ d. more_apart _ _ (d == c) _ (o.accounted d) (o.apart d) (at_equal n.open_conn false c d h);
  quiet = o.quiet;
}
run_section-Owned (acquired c) n o h =
    install-Owned 1 c n.arbiter.mode n.arbiter.owner_conn n.arbiter.connection_generation
      n.open_conn n.dialing o h
run_section-Owned (controlled c) n o h =
    install-Owned 0 c n.arbiter.mode n.arbiter.owner_conn n.arbiter.connection_generation
      n.open_conn n.dialing o h
run_section-Owned (dropped c) n o h =
    dropped-Owned c n.arbiter.mode n.arbiter.owner_conn n.arbiter.connection_generation n.open_conn
      n.dialing o

Reachable-Owned : (n : Net) → Reachable n → Owned n
Reachable-Owned _ start = new_net-Owned
Reachable-Owned _ (step s n r h) = run_section-Owned s n (Reachable-Owned n r) h

-- In every net that the sections reach from the start: in relay mode no socket of the owner's is open but
-- one whose dial has not come back to the arbiter.
pub relay_sockets_closed :
    (n : Net)
    → Reachable n
    → (c : ℕ) → is_relay n.arbiter.mode ≡ true
    → n.dialing c ≡ false
    → n.open_conn c ≡ false
relay_sockets_closed n r c m d =
    let o = Reachable-Owned n r in let q = o.quiet m in o.accounted c ∙ rw (q, d) refl

-- In every net that the sections reach from the start, the connection that the arbiter hands out is open.
owner_conn_open :
    (n : Net) → Reachable n → (c : ℕ) → n.arbiter.owner_conn ≡ some c → n.open_conn c ≡ true
owner_conn_open n r c e =
    let o = Reachable-Owned n r in
    let p = ap (λ x. n.dialing c || is_conn c x) e in
    o.accounted c ∙ (p ∙ or_true (n.dialing c) (c == c) ((==_iff c c).1 refl))
