-- ===== src/Client/Loops.antt =====
-- internal/client/conn.go: a loop over readFrame ends, and goes through the frames in the order of the wire.
use mathlib.Core.Path.{subst}
use makera_cnc_controller.Base.{
  ℕ, zero, suc, ◌+◌, ◌<◌, ◌≡◌, refl, ap, ◌∙◌, Option, none, some, List, [], ◌∷◌, ◌++◌, arith,
  length, take, drop, inl, inr, ◌⊎◌,
}
use makera_cnc_controller.Protocol.{Frame}
use makera_cnc_controller.Client.{
  NetError, timeout, WriteResult, wrote, write_failed, Outbound, write_all, write_frame, ReadResult,
  refused, got, Inbound, Received, frame, failed, absorb, received, read_loop, read_frame,
  frames_left, remaining, Turn, again, done, frame_loop, each_frame,
}

take-drop : (n : ℕ) (b : List ℕ) → take n b ++ drop n b ≡ b
take-drop zero b = refl
take-drop (suc n) [] = refl
take-drop (suc n) (x ∷ b) = ap (λ t. x ∷ t) (take-drop n b)

-- What is sent in writes that end without an error is the whole.
write_all-whole :
    (ws : List WriteResult) (b : List ℕ) → (write_all ws b).fault ≡ none → (write_all ws b).gone ≡ b
unfolding write_all
write_all-whole [] b h = refl
write_all-whole (write_failed n e ∷ ws) [] h = refl
write_all-whole (write_failed n e ∷ ws) (x ∷ b) h = ground arith
write_all-whole (wrote n ∷ ws) [] h = refl
write_all-whole (wrote n ∷ ws) (x ∷ b) h =
    ground (arith, write_all-whole ws (drop n (x ∷ b)), take-drop n (x ∷ b))

-- A frame that is written without an error is sent whole behind what was sent.
pub write_frame-whole :
    (o : Outbound) (b : List ℕ)
    → (write_frame o b).1 ≡ none
    → (write_frame o b).0.sent ≡ o.sent ++ b
unfolding write_frame
write_frame-whole o b h = ap (λ t. o.sent ++ t) (write_all-whole o.writes b h)

-- The frames that are read before the first error, and that error.
pub record Heard : Type 0 where
  pub frames : List Frame
  pub fault : NetError

abbrev pub with_frames : List Frame → Heard → Heard
with_frames fs h = record h { frames = fs ++ h.frames }

unfoldable pub heard_read : List Frame → Option NetError → Heard → Heard
heard_read (f ∷ fs) e h = with_frames (f ∷ fs) h
heard_read [] (some e) h = record { frames = []; fault = e }
heard_read [] none h = h

unfoldable pub heard_reads : List ReadResult → List ℕ → Heard
unfolding heard_read
heard_reads [] b = record { frames = []; fault = timeout }
heard_reads (refused e ∷ rs) b = record { frames = []; fault = e }
heard_reads (got bytes e ∷ rs) b =
    let (fs, b') = absorb b bytes in heard_read fs e (heard_reads rs b')

unfoldable pub heard : Inbound → Heard
heard i = with_frames i.pending (heard_reads i.reads i.buffer)

-- What one readFrame does to the frames to come, and to their number.
abbrev Reads : Heard → ℕ → Received → Type 0
Reads h n (frame f i) = (h ≡ with_frames (f ∷ []) (heard i)) × (n ≡ suc (remaining i))
Reads h n (failed e i) = h ≡ record { frames = []; fault = e }

received-Reads :
    (fs : List Frame) (b : List ℕ) (e : Option NetError) (rs : List ReadResult) (next : Received)
    → Reads (heard_reads rs b) (frames_left rs b) next
    → Reads
        (heard_read fs e (heard_reads rs b))
        (length fs + frames_left rs b)
        (received fs b e rs next)
unfolding received heard heard_read remaining
received-Reads (f ∷ fs) b e rs next h = (refl, omega arith)
received-Reads [] b (some e) rs next h = refl
received-Reads [] b none rs (frame f i) h = (h.0, omega (arith, h.1))
received-Reads [] b none rs (failed e i) h = h

read_loop-Reads :
    (rs : List ReadResult) (b : List ℕ)
    → Reads (heard_reads rs b) (frames_left rs b) (read_loop rs b)
unfolding read_loop heard_reads frames_left
read_loop-Reads [] b = refl
read_loop-Reads (refused e ∷ rs) b = refl
read_loop-Reads (got bytes e ∷ rs) b =
    let (fs, b') = absorb b bytes in
    received-Reads fs b' e rs (read_loop rs b') (read_loop-Reads rs b')

read_frame-Reads : (i : Inbound) → Reads (heard i) (remaining i) (read_frame i)
read_frame-Reads i = at i.pending i.buffer i.reads
  where
    at :
        (fs : List Frame) (b : List ℕ) (rs : List ReadResult)
        → let j : Inbound = record { pending = fs; buffer = b; reads = rs } in
          Reads (heard j) (remaining j) (read_frame j)
    at (f ∷ fs) b rs = unfold heard remaining read_frame in (refl, omega arith)
    at [] b rs =
        let e : frames_left rs b ≡ 0 + frames_left rs b = omega arith in
        unfold heard remaining read_frame in
        subst (λ n. Reads (heard_reads rs b) n (read_loop rs b)) e (read_loop-Reads rs b)

-- What is read, with what it says of the frames to come.
abbrev pub Next : Heard → ℕ → Received → Type 0
Next h n r =
    ((f : Frame) × (i : Inbound) × (r ≡ frame f i)
      × (h ≡ with_frames (f ∷ []) (heard i))
      × (n ≡ suc (remaining i)))
    ⊎ ((e : NetError) × (i : Inbound) × (r ≡ failed e i) × (h ≡ record { frames = []; fault = e }))

Next-of : (h : Heard) (n : ℕ) (r : Received) → Reads h n r → Next h n r
Next-of h n (frame f i) p = inl (f, i, refl, p.0, p.1)
Next-of h n (failed e i) p = inr (e, i, refl, p)

pub read_frame-Next : (i : Inbound) → Next (heard i) (remaining i) (read_frame i)
read_frame-Next i = Next-of (heard i) (remaining i) (read_frame i) (read_frame-Reads i)

pub Turn-cases :
    {S R : Type 0} (t : Turn S R) → ((s : S) × (t ≡ again s)) ⊎ ((r : R) × (t ≡ done r))
Turn-cases (again s) = inl (s, refl)
Turn-cases (done r) = inr (r, refl)

-- The loop as a fold over the frames that are heard.
module _ {S R : Type 0} (on_fault : S → NetError → R) (round : S → Frame → Turn S R) where
  unfoldable pub fold_frames : S → List Frame → NetError → R
  fold_frames s [] e = on_fault s e
  fold_frames s (f ∷ fs) e = elim (round s f) [ again s' ↦ fold_frames s' fs e | done r ↦ r ]

  -- What a loop gives from the frames heard, with what is left to read.
  abbrev Folds : S → Heard → Option (R × Inbound) → Type 0
  Folds s h o = (i : Inbound) × (o ≡ some (fold_frames s h.frames h.fault, i))

  pub loop-again :
      (fuel : ℕ) (s : S) (i : Inbound) (f : Frame) (i' : Inbound) (s' : S)
      → read_frame i ≡ frame f i'
      → round s f ≡ again s'
      → frame_loop on_fault round (suc fuel) s i ≡ frame_loop on_fault round fuel s' i'
  unfolding frame_loop
  loop-again fuel s i f i' s' r t = rw (r, t, frame_loop)

  pub loop-done :
      (fuel : ℕ) (s : S) (i : Inbound) (f : Frame) (i' : Inbound) (d : R)
      → read_frame i ≡ frame f i'
      → round s f ≡ done d
      → frame_loop on_fault round (suc fuel) s i ≡ some (d, i')
  unfolding frame_loop
  loop-done fuel s i f i' d r t = rw (r, t, frame_loop)

  pub loop-failed :
      (fuel : ℕ) (s : S) (i : Inbound) (e : NetError) (i' : Inbound)
      → read_frame i ≡ failed e i'
      → frame_loop on_fault round (suc fuel) s i ≡ some (on_fault s e, i')
  unfolding frame_loop
  loop-failed fuel s i e i' r = rw (r, frame_loop)

  pub fold-again :
      (s : S) (f : Frame) (fs : List Frame) (e : NetError) (s' : S)
      → round s f ≡ again s'
      → fold_frames s (f ∷ fs) e ≡ fold_frames s' fs e
  unfolding fold_frames
  fold-again s f fs e s' t = rw (t, fold_frames)

  fold-end : (s : S) (e : NetError) → fold_frames s [] e ≡ on_fault s e
  unfolding fold_frames
  fold-end s e = refl

  pub fold-done :
      (s : S) (f : Frame) (fs : List Frame) (e : NetError) (d : R)
      → round s f ≡ done d
      → fold_frames s (f ∷ fs) e ≡ d
  unfolding fold_frames
  fold-done s f fs e d t = rw (t, fold_frames)

  -- With fuel above the number of frames to come, the loop gives a result: the fold over the frames heard.
  frame_loop-Folds :
      (fuel : ℕ) (s : S) (i : Inbound)
      → remaining i < fuel
      → Folds s (heard i) (frame_loop on_fault round fuel s i)
  frame_loop-Folds zero s i h = absurd (omega arith)
  frame_loop-Folds (suc fuel) s i h = elim (read_frame-Next i) [
    | inl (f, i', r, hd, n) ↦ elim (Turn-cases (round s f)) [
      | inl (s', t) ↦
          let (j, more) = frame_loop-Folds fuel s' i' (omega arith) in
          (
            j,
            loop-again fuel s i f i' s' r t
                ∙ more
                ∙ ap some (rw (hd, fold-again s f (heard i').frames (heard i').fault s' t)),
          )
      | inr (d, t) ↦ (
        i',
        loop-done fuel s i f i' d r t
            ∙ ap some (rw (hd, fold-done s f (heard i').frames (heard i').fault d t)),
      )
    ]
    | inr (e, i', r, hd) ↦ (i', loop-failed fuel s i e i' r ∙ ap some (rw (hd, fold-end s e)))
  ]

  -- A loop over readFrame always gives a result, and it is the fold over the frames heard.
  pub each_frame-Folds : (s : S) (i : Inbound) → Folds s (heard i) (each_frame on_fault round s i)
  unfolding each_frame
  each_frame-Folds s i = frame_loop-Folds (suc (remaining i)) s i (omega arith)
