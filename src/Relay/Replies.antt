-- ===== src/Relay/Replies.antt =====
-- internal/relay/mux.go: what an operation of the proxy reads in its window.
use makera_cnc_controller.Base.{
  ℕ, Bool, true, false, some, List, [], ◌++◌, ◌≡◌, refl, sym, ap, ◌∙◌, inl, inr, arith,
  append_assoc, take, drop,
}
use makera_cnc_controller.Protocol.{Frame}
use makera_cnc_controller.Relay.{Mux, acquire_injection, finish_local_transfer}
use makera_cnc_controller.Relay.Injection.{
  Transport, done, fault, inject_overflowed, inject_write, inject_read,
}
use makera_cnc_controller.Relay.Feed.{
  Feed, opened, routed, route, ◌⟿◌, Fed, raws, take-drop, Managed, Apart, Apart-Managed, note-Apart,
  begin_local-Apart, write-Apart, read-cases, notes, routes, writes, reads, begins_local,
  finishes_local, start, next,
}
use makera_cnc_controller.Relay.Diverting.{
  Routed, raws-snoc, longer, route-Routed, passed, swallowed, buffered, broke,
}

route-Managed :
    (s : Feed) (f : Frame) (r : Mux × Bool) → Routed s.mux f r → Managed s → Managed (routed s f r)
unfolding routed
route-Managed s f (m, true) (passed e a) g = Apart-Managed s m a g
route-Managed s f (m, false) (passed e a) g = absurd (ground arith)
route-Managed s f (m, true) (swallowed e a o) g = absurd (ground arith)
route-Managed s f (m, true) (buffered e o a) g = absurd (ground arith)
route-Managed s f (m, true) (broke e a) g = absurd (ground arith)
route-Managed s f (m, false) (swallowed e a o) g = record {
  managed = a.interactive ∙ g.managed;
  window = a.injecting ∙ g.window;
  unaborted = a.abort_open ∙ g.unaborted;
  stream = elim g.stream [
    | inl x ↦ absurd (ground arith)
    | inr x ↦ inr (
      a.inject_overflow ∙ x.0,
      a.inject_open ∙ x.1,
      x.2 ++ f.raw,
      longer s.diverted f s.got s.transport.scan_buf x.2 x.3,
    )
  ];
}
route-Managed s f (m, false) (buffered e o a) g = record {
  managed = a.interactive ∙ g.managed;
  window = a.injecting ∙ g.window;
  unaborted = a.abort_open ∙ g.unaborted;
  stream = elim g.stream [
    | inl x ↦ inl (
      a.inject_overflow ∙ x.0,
      a.inject_open ∙ x.1,
      longer s.diverted f s.got s.transport.scan_buf (raws s.mux.inject_queue) x.2
          ∙ ap (λ t. s.got ++ (s.transport.scan_buf ++ t))
              (sym (raws-snoc s.mux.inject_queue f) ∙ ap raws (sym a.inject_queue)),
    )
    | inr x ↦ absurd (ground arith)
  ];
}
route-Managed s f (m, false) (broke e a) g = record {
  managed = a.interactive ∙ g.managed;
  window = a.injecting ∙ g.window;
  unaborted = a.abort_open ∙ g.unaborted;
  stream = elim g.stream [
    | inl x ↦ inr (
      a.inject_overflow,
      a.inject_open,
      raws s.mux.inject_queue ++ f.raw,
      longer s.diverted f s.got s.transport.scan_buf (raws s.mux.inject_queue) x.2,
    )
    | inr x ↦ inr (
      a.inject_overflow,
      a.inject_open,
      x.2 ++ f.raw,
      longer s.diverted f s.got s.transport.scan_buf x.2 x.3,
    )
  ];
}

-- Moving bytes from what is buffered to what was read.
advance :
    (got buf rest all : List ℕ) (n : ℕ)
    → all ≡ got ++ (buf ++ rest)
    → all ≡ (got ++ take n buf) ++ (drop n buf ++ rest)
advance got buf rest all n e =
    e
    ∙ ap (λ t. got ++ (t ++ rest)) (sym (take-drop n buf))
    ∙ ap (λ t. got ++ t) (append_assoc (take n buf) (drop n buf) rest)
    ∙ sym (append_assoc got (take n buf) (drop n buf ++ rest))

read-Managed :
    (s : Feed) (size : ℕ) (t : Transport) (m : Mux) (p : List ℕ)
    → inject_read size s.transport s.mux ≡ done (t, m, p)
    → Managed s
    → Managed (record s { mux = m; transport = t; got = s.got ++ p })
read-Managed s size t m p e g = elim (read-cases size s.transport t s.mux m p e) [
  | inl (same, left, read) ↦ record {
    managed = ap (λ (n : Mux). n.interactive) same ∙ g.managed;
    window = ap (λ (n : Mux). n.injecting) same ∙ g.window;
    unaborted = ap (λ (n : Mux). n.abort_open) same ∙ g.unaborted;
    stream = elim g.stream [
      | inl x ↦ inl (
        ap (λ (n : Mux). n.inject_overflow) same ∙ x.0,
        ap (λ (n : Mux). n.inject_open) same ∙ x.1,
        rw (same, left, read)
            (advance s.got s.transport.scan_buf (raws s.mux.inject_queue) (raws s.diverted) size
              x.2),
      )
      | inr x ↦ inr (
        ap (λ (n : Mux). n.inject_overflow) same ∙ x.0,
        ap (λ (n : Mux). n.inject_open) same ∙ x.1,
        x.2,
        rw (left, read) (advance s.got s.transport.scan_buf x.2 (raws s.diverted) size x.3),
      )
    ];
  }
  | inr (f, fs, none_left, there, queue, next_mux, left, read) ↦ record {
    managed = ap (λ (n : Mux). n.interactive) next_mux ∙ g.managed;
    window = ap (λ (n : Mux). n.injecting) next_mux ∙ g.window;
    unaborted = ap (λ (n : Mux). n.abort_open) next_mux ∙ g.unaborted;
    stream = elim g.stream [
      | inl x ↦ inl (
        ap (λ (n : Mux). n.inject_overflow) next_mux ∙ x.0,
        ap (λ (n : Mux). n.inject_open) next_mux ∙ x.1,
        rw (next_mux, left, read)
            (advance s.got f.raw (raws fs) (raws s.diverted) size
              (x.2 ∙ rw (none_left, queue) refl)),
      )
      | inr x ↦ absurd (ground arith)
    ];
  }
]

opened-Managed : (m n : Mux) → acquire_injection m ≡ some n → Managed (opened n)
unfolding opened acquire_injection
opened-Managed m n e = record {
  managed = ground arith;
  window = ground arith;
  unaborted = ground arith;
  stream = inl (ground arith, ground arith, ground arith);
}

write-Managed :
    (s : Feed) (t : Transport) (m : Mux)
    → Apart s.mux m
    → t.scan_buf ≡ s.transport.scan_buf
    → Managed s
    → Managed (record s { mux = m; transport = t })
write-Managed s t m a e g =
    let n = Apart-Managed s m a g in
    record {
      managed = n.managed;
      window = n.window;
      unaborted = n.unaborted;
      stream = elim n.stream [
        | inl x ↦ inl (x.0, x.1, rw e x.2)
        | inr x ↦ inr (x.0, x.1, x.2, rw e x.3)
      ];
    }

step-Managed : (s t : Feed) → s ⟿ t → Managed s → Managed t
unfolding route finish_local_transfer
step-Managed s _ (notes f) g = Apart-Managed s _ (note-Apart s.mux f g.managed) g
step-Managed s _ (routes f) g = route-Managed s f _ (route-Routed s.mux f g.managed g.window) g
step-Managed s _ (writes p t m e) g =
    let a = write-Apart s.transport t s.mux m p e in write-Managed s t m a.0 a.1 g
step-Managed s _ (reads size t m p e) g = read-Managed s size t m p e g
step-Managed s _ begins_local g = Apart-Managed s _ (begin_local-Apart s.mux g.managed) g
step-Managed s _ finishes_local g =
    Apart-Managed s _
      (record {
        interactive = refl;
        injecting = refl;
        abort_open = refl;
        inject_open = refl;
        inject_queue = refl;
        inject_overflow = refl;
      })
      g

Fed-Managed : (s : Feed) → Fed s → Managed s
Fed-Managed _ (start m n e) = opened-Managed m n e
Fed-Managed _ (next s t f st) = step-Managed s t st (Fed-Managed s f)

-- Whatever happens in a managed window: as long as its buffer has not overflowed, the bytes that the
-- operation has read, and those that it can still read, are those of the frames diverted to it, in order.
pub replies_whole :
    (s : Feed)
    → Fed s
    → s.mux.inject_overflow ≡ false
    → raws s.diverted ≡ s.got ++ (s.transport.scan_buf ++ raws s.mux.inject_queue)
replies_whole s f h = elim (Fed-Managed s f).stream [ inl x ↦ x.2 | inr x ↦ absurd (ground arith) ]

-- Once the buffer of a managed window has overflowed, every write fails, and so does every read that finds no
-- rest of a frame whose first bytes were read before; what was read is the start of what was diverted.
pub overflow_fails :
    (s : Feed) (p : List ℕ) (size : ℕ)
    → Fed s
    → s.mux.inject_overflow ≡ true
    → s.transport.scan_buf ≡ []
    → (inject_write s.transport s.mux p ≡ fault inject_overflowed)
      × (inject_read size s.transport s.mux ≡ fault inject_overflowed)
      × (rest : List ℕ) × (raws s.diverted ≡ s.got ++ rest)
unfolding inject_write inject_read
overflow_fails s p size f h e = elim (Fed-Managed s f).stream [
  | inl x ↦ absurd (ground arith)
  | inr x ↦ (ground arith, rw (e, x.1, h, inject_read) refl, x.2, x.3 ∙ rw e refl)
]
