-- ===== src/Relay/Diverting.antt =====
-- internal/relay/mux.go: where a frame of the machine goes in a managed window.
use makera_cnc_controller.Base.{
  ℕ, ◌-◌, Bool, true, false, List, [], ◌∷◌, ◌++◌, ◌≡◌, ap, ◌∙◌, inl, inr, arith, append_assoc,
  append-nil, ltb, length, ◌==◌, Bool-cases,
}
use makera_cnc_controller.Protocol.{Frame}
use makera_cnc_controller.Relay.{
  Mux, cmd_status_res, route_machine_frame, note_status, deliver_inject,
}
use makera_cnc_controller.Relay.Feed.{raws, raws-append, Apart}

-- A frame of the machine goes on to the controller, or into the buffer, or, if the buffer is full, breaks the
-- window; a broken one swallows it.
pub data Routed (m : Mux) (f : Frame) (r : Mux × Bool) : Type 0 where
  passed : r.1 ≡ true → Apart m r.0 → Routed m f r
  swallowed : r.1 ≡ false → Apart m r.0 → m.inject_open ≡ false → Routed m f r
  buffered :
      r.1 ≡ false
      → m.inject_open ≡ true
      → Apart (record m { inject_queue = m.inject_queue ++ (f ∷ []) }) r.0
      → Routed m f r
  broke :
      r.1 ≡ false
      → Apart (record m { inject_overflow = true; inject_open = false; inject_queue = [] }) r.0
      → Routed m f r

pub raws-snoc : (fs : List Frame) (f : Frame) → raws (fs ++ (f ∷ [])) ≡ raws fs ++ f.raw
raws-snoc fs f = raws-append fs (f ∷ []) ∙ ap (λ t. raws fs ++ t) (append-nil f.raw)

-- A diverted frame goes behind everything that is still to be read.
pub longer :
    (fs : List Frame) (f : Frame) (got buf rest : List ℕ)
    → raws fs ≡ got ++ (buf ++ rest)
    → raws (fs ++ (f ∷ [])) ≡ got ++ (buf ++ (rest ++ f.raw))
longer fs f got buf rest e =
    raws-snoc fs f
    ∙ ap (λ t. t ++ f.raw) e
    ∙ append_assoc got (buf ++ rest) f.raw
    ∙ ap (λ t. got ++ t) (append_assoc buf rest f.raw)

pub deliver-Routed :
    (m n : Mux) (f : Frame) (r : Mux × Bool)
    → Apart m n
    → m.interactive ≡ false
    → r.0 ≡ deliver_inject n f
    → r.1 ≡ false
    → Routed m f r
unfolding deliver_inject
deliver-Routed m n f r a h e told =
    let i = a.interactive in
    let j = a.injecting in
    let k = a.abort_open in
    let o = a.inject_open in
    let q = a.inject_queue in
    let v = a.inject_overflow in
    elim (Bool-cases m.inject_open) [
      | inr y ↦
          swallowed told
            record {
              interactive = ground arith;
              injecting = ground arith;
              abort_open = ground arith;
              inject_open = ground arith;
              inject_queue = ground arith;
              inject_overflow = ground arith;
            }
            y
      | inl y ↦ elim (Bool-cases (ltb (length n.inject_queue) n.inject_cap)) [
        | inl z ↦ buffered told y record {
          interactive = ground arith;
          injecting = ground arith;
          abort_open = ground arith;
          inject_open = ground arith;
          inject_queue = ground arith;
          inject_overflow = ground arith;
        }
        | inr z ↦ broke told record {
          interactive = ground arith;
          injecting = ground arith;
          abort_open = ground arith;
          inject_open = ground arith;
          inject_queue = ground arith;
          inject_overflow = ground arith;
        }
      ]
    ]

pub route-Routed :
    (m : Mux) (f : Frame)
    → m.interactive ≡ false
    → m.injecting ≡ true
    → Routed m f (route_machine_frame m f)
unfolding route_machine_frame note_status
route-Routed m f h w = elim (Bool-cases (f.cmd == cmd_status_res)) [
  | inl y ↦ elim (Bool-cases (ltb 0 m.inject_status_polls)) [
    | inl z ↦
        deliver-Routed m
          (record m { last_status = f.data_bytes; inject_status_polls = m.inject_status_polls - 1 })
          f _
          record {
            interactive = ground arith;
            injecting = ground arith;
            abort_open = ground arith;
            inject_open = ground arith;
            inject_queue = ground arith;
            inject_overflow = ground arith;
          }
          h (ground arith) (ground arith)
    | inr z ↦ passed (ground arith) record {
      interactive = ground arith;
      injecting = ground arith;
      abort_open = ground arith;
      inject_open = ground arith;
      inject_queue = ground arith;
      inject_overflow = ground arith;
    }
  ]
  | inr y ↦
      deliver-Routed m m f _
        record {
          interactive = ground arith;
          injecting = ground arith;
          abort_open = ground arith;
          inject_open = ground arith;
          inject_queue = ground arith;
          inject_overflow = ground arith;
        }
        h (ground arith) (ground arith)
]
