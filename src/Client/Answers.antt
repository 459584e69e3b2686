-- ===== src/Client/Answers.antt =====
-- internal/client/conn.go: what Upload sends to a machine that drives it.
use mathlib.Core.Path.{subst}
use makera_cnc_controller.Base.{
  ℕ, suc, ◌-◌, ◌/◌, ◌%◌, ◌^◌, ◌<◌, ◌≡◌, refl, sym, ap, ◌∙◌, true, false, not, ◌&&◌, Option, none,
  some, List, [], ◌∷◌, ◌++◌, append_assoc, append-nil, arith, ltb, ◌==◌, if◌then◌else◌, length,
  take, All, inl, inr, Bool-cases,
}
use makera_cnc_controller.Base.Text.{Text}
use makera_cnc_controller.Protocol.{Frame, encode}
use makera_cnc_controller.Protocol.RoundTrip.{encode_all}
use makera_cnc_controller.Protocol.Escape.{upload_command}
use makera_cnc_controller.Relay.Download.{uint32_bytes, uint32_of}
use makera_cnc_controller.Relay.Download.Packets.{file_reader}
use makera_cnc_controller.Client.{NetError, Outbound, write_frame, Inbound, Turn, again, done}
use makera_cnc_controller.Client.Loops.{
  write_frame-whole, heard, fold_frames, fold-again, fold-done, each_frame-Folds,
}
use makera_cnc_controller.Client.Packets.{part, data_packet_lem}
use makera_cnc_controller.Client.Answering.{write_frame-free}
use makera_cnc_controller.Client.Transfer.{
  packet_count, Upload, UploadEnd, uploaded, send, resend, resend_last, send_data, upload_round,
  upload_fault, upload_loop, upload,
}

-- A command with its payload.
abbrev pub Sent : Type 0
Sent = ℕ × List ℕ

-- What a request is answered by, where `prev` was sent before; none where it is passed over.
module _ (content : List ℕ) (ps : ℕ) (md5hex : Text) where
  abbrev view_of : List ℕ
  view_of =
      uint32_bytes (packet_count (file_reader content) (length content) ps)
      ++ ((ps / 256 % 256) ∷ (ps % 256) ∷ [])

  abbrev pub answer : Sent → Frame → Option Sent
  answer prev f =
      if f.cmd == 0xB6
      then some prev
      else if f.cmd == 0xB1
      then some (0xB1, md5hex)
      else if f.cmd == 0xB2
      then some (0xB2, view_of)
      else if f.cmd == 0xB3 && not (ltb (length f.data_bytes) 4)
      then (let seq = uint32_of (take 4 f.data_bytes) in
          some (0xB3, uint32_bytes seq ++ part content ps (seq - 1)))
      else none

  abbrev pub answers_with : (Sent → List Sent) → Sent → Option Sent → List Sent
  answers_with rest prev none = rest prev
  answers_with rest prev (some s) = s ∷ rest s

  abbrev pub answers : List Frame → Sent → List Sent
  answers [] prev = []
  answers (f ∷ fs) prev = answers_with (answers fs) prev (answer prev f)

  -- A request in the middle of a transfer; one for data is for a packet of the file or one behind its end.
  abbrev pub IsRequest : Frame → Type 0
  IsRequest f =
      ((f.cmd == 0xB5) ≡ false)
      × ((f.cmd == 0xB4) ≡ false)
      × ((f.cmd == 0xB3) ≡ true
          → (0 < uint32_of (take 4 f.data_bytes)) × (uint32_of (take 4 f.data_bytes) < 2 ^ 32))

  -- What the loop's variables say of the wire.
  abbrev Told : List ℕ → Sent → Upload → Type 0
  Told bytes prev u = (u.out.writes ≡ []) × (u.last ≡ some prev) × (u.out.sent ≡ bytes)

  abbrev Goes : Turn Upload (Upload × UploadEnd) → List ℕ → Sent → Type 0
  Goes t bytes prev = (u : Upload) × (t ≡ again u) × Told bytes prev u

  send-Goes :
      (u : Upload) (cmd : ℕ) (payload : List ℕ)
      → u.out.writes ≡ []
      → Goes
          (send (file_reader content) (length content) ps u cmd payload)
          (u.out.sent ++ encode cmd payload)
          (cmd, payload)
  unfolding send
  send-Goes u cmd payload w =
      let (fine, later) = write_frame-free u.out (encode cmd payload) w in
      (
        record u { out = (write_frame u.out (encode cmd payload)).0; last = some (cmd, payload) },
        rw (fine, send) refl,
        (later, refl, write_frame-whole u.out (encode cmd payload) fine),
      )

  resend-Goes :
      (u : Upload) (cmd : ℕ) (payload : List ℕ)
      → u.out.writes ≡ []
      → u.last ≡ some (cmd, payload)
      → Goes
          (resend_last (file_reader content) (length content) ps u)
          (u.out.sent ++ encode cmd payload)
          (cmd, payload)
  unfolding resend_last
  resend-Goes u cmd payload w e =
      let (fine, later) = write_frame-free u.out (encode cmd payload) w in
      (
        record u { out = (write_frame u.out (encode cmd payload)).0 },
        ap (resend (file_reader content) (length content) ps u) e ∙ rw (fine, resend) refl,
        (later, e, write_frame-whole u.out (encode cmd payload) fine),
      )

  data-Goes :
      (u : Upload) (m : ℕ)
      → u.out.writes ≡ []
      → suc m < 2 ^ 32
      → let payload = uint32_bytes (suc m) ++ part content ps m in
        Goes
          (send_data (file_reader content) (length content) ps u (suc m))
          (u.out.sent ++ encode 0xB3 payload)
          (0xB3, payload)
  unfolding send_data
  data-Goes u m w small =
      let payload = uint32_bytes (suc m) ++ part content ps m in
      let (u', t, told) = send-Goes u 0xB3 payload w in
      (
        record u' {
          progress =
              u'.progress ++ (suc m, packet_count (file_reader content) (length content) ps) ∷ [];
        },
        rw (data_packet_lem content ps m small, send_data) (rw t refl),
        told,
      )

  abbrev bytes_of : Option Sent → List ℕ
  bytes_of none = []
  bytes_of (some (cmd, payload)) = encode cmd payload

  abbrev next_of : Sent → Option Sent → Sent
  next_of prev none = prev
  next_of prev (some s) = s

  -- One request, behind which the loop goes on.
  round-Goes :
      (u : Upload) (prev : Sent) (f : Frame)
      → u.out.writes ≡ []
      → u.last ≡ some prev
      → IsRequest f
      → Goes
          (upload_round (file_reader content) (length content) ps md5hex u f)
          (u.out.sent ++ bytes_of (answer prev f))
          (next_of prev (answer prev f))
  unfolding upload_round
  round-Goes u (cmd, payload) f w l (n5, n4, ok) = elim (Bool-cases (f.cmd == 0xB6)) [
    | inl y ↦ rw (n5, y) (resend-Goes u cmd payload w l)
    | inr n6 ↦ elim (Bool-cases (f.cmd == 0xB1)) [
      | inl y ↦ rw (n5, n6, y) (send-Goes u 0xB1 md5hex w)
      | inr n1 ↦ elim (Bool-cases (f.cmd == 0xB2)) [
        | inl y ↦ rw (n5, n6, n1, y) (send-Goes u 0xB2 view_of w)
        | inr n2 ↦ elim (Bool-cases (f.cmd == 0xB3)) [
          | inr n3 ↦ rw (n5, n6, n1, n2, n3, n4) (u, refl, (w, l, sym (append-nil u.out.sent)))
          | inl y ↦ elim (Bool-cases (ltb (length f.data_bytes) 4)) [
            | inl short ↦
                rw (n5, n6, n1, n2, y, short) (u, refl, (w, l, sym (append-nil u.out.sent)))
            | inr long ↦
                let seq = uint32_of (take 4 f.data_bytes) in
                let e : seq ≡ suc (seq - 1) = omega (arith, ok y) in
                let g = data-Goes u (seq - 1) w (omega (arith, ok y)) in
                rw (n5, n6, n1, n2, y, long)
                  (subst
                    (λ k.
                      Goes (send_data (file_reader content) (length content) ps u k)
                        (u.out.sent ++ encode 0xB3 (uint32_bytes k ++ part content ps (seq - 1)))
                        (0xB3, uint32_bytes k ++ part content ps (seq - 1)))
                    (sym e) g)
          ]
        ]
      ]
    ]
  ]

  answers-wire :
      (rest : Sent → List Sent) (prev : Sent) (o : Option Sent)
      → encode_all (answers_with rest prev o) ≡ bytes_of o ++ encode_all (rest (next_of prev o))
  unfolding encode_all
  answers-wire rest prev none = refl
  answers-wire rest prev (some (cmd, payload)) = refl

  -- FILE_END ends the loop.
  end-done :
      (u : Upload) (f : Frame)
      → (f.cmd == 0xB4) ≡ true
      → (u' : Upload) × (upload_round (file_reader content) (length content) ps md5hex u f
          ≡ done (u', uploaded))
        × (u'.out.sent ≡ u.out.sent)
  unfolding upload_round
  end-done u f y =
      let n = packet_count (file_reader content) (length content) ps in
      (record u { progress = u.progress ++ (n, n) ∷ [] }, ground arith, refl)

  abbrev folded : Upload → List Frame → NetError → Upload × UploadEnd
  folded u fs e =
      fold_frames (upload_fault (file_reader content) (length content) ps)
        (upload_round (file_reader content) (length content) ps md5hex) u fs e

  fold-Answers :
      (u : Upload) (prev : Sent) (fs : List Frame) (f : Frame) (rest : List Frame) (e : NetError)
      → u.out.writes ≡ []
      → u.last ≡ some prev
      → All IsRequest fs
      → (f.cmd == 0xB4) ≡ true
      → ((folded u (fs ++ f ∷ rest) e).1 ≡ uploaded)
        × ((folded u (fs ++ f ∷ rest) e).0.out.sent ≡ u.out.sent ++ encode_all (answers fs prev))
  unfolding encode_all
  fold-Answers u prev [] f rest e w l q y =
      let (u', t, s) = end-done u f y in
      let d =
        fold-done (upload_fault (file_reader content) (length content) ps)
          (upload_round (file_reader content) (length content) ps md5hex) u f rest e (u', uploaded)
          t in
      (ap (λ r. r.1) d, ap (λ r. r.0.out.sent) d ∙ s ∙ sym (append-nil u.out.sent))
  fold-Answers u prev (g ∷ fs) f rest e w l q y =
      let (u', t, (w', l', s')) = round-Goes u prev g w l q.0 in
      let d =
        fold-again (upload_fault (file_reader content) (length content) ps)
          (upload_round (file_reader content) (length content) ps md5hex) u g (fs ++ f ∷ rest) e u'
          t in
      let (a, b) = fold-Answers u' (next_of prev (answer prev g)) fs f rest e w' l' q.1 y in
      (
        ap (λ r. r.1) d ∙ a,
        ap (λ r. r.0.out.sent) d
            ∙ b
            ∙ ap (λ t. t ++ encode_all (answers fs (next_of prev (answer prev g)))) s'
            ∙ append_assoc u.out.sent (bytes_of (answer prev g))
                (encode_all (answers fs (next_of prev (answer prev g))))
            ∙ ap (λ t. u.out.sent ++ t) (sym (answers-wire (answers fs) prev (answer prev g))),
      )

  -- Where writes go through, an upload that the machine asks for, in any order and with any repetitions, and ends by FILE_END,
  -- is reported as uploaded. What is sent is the command, the MD5 and then one frame for each request, in
  -- order: the MD5, the number and size of the packets, the part of the file with the number asked for, and for
  -- FILE_RETRY the frame before once more.
  pub upload_replies :
      (remote_path : Text) (o : Outbound) (i : Inbound) (fs : List Frame) (f : Frame)
      (rest : List Frame)
      → o.writes ≡ []
      → (heard i).frames ≡ fs ++ f ∷ rest
      → All IsRequest fs
      → (f.cmd == 0xB4) ≡ true
      → (u : Upload) × (i' : Inbound) × (upload
            (file_reader content)
            (length content)
            ps
            remote_path
            md5hex
            o
            i
          ≡ some ((u, uploaded), i'))
        × (u.out.sent
            ≡ o.sent
              ++ (upload_command remote_path
                  ++ encode_all ((0xB1, md5hex) ∷ answers fs (0xB1, md5hex))))
  unfolding upload upload_loop encode_all
  upload_replies remote_path o i fs f rest w hd q y =
      let (fine, later) = write_frame-free o (upload_command remote_path) w in
      let begun = write_frame-whole o (upload_command remote_path) fine in
      let u0 : Upload = record {
        out = (write_frame o (upload_command remote_path)).0;
        last = none;
        progress = [];
      } in
      let (u, t, (w', l, s)) = send-Goes u0 0xB1 md5hex later in
      let r = folded u (heard i).frames (heard i).fault in
      let (i', loop) =
        each_frame-Folds (upload_fault (file_reader content) (length content) ps)
          (upload_round (file_reader content) (length content) ps md5hex) u i in
      let (a, b) =
        subst
          (λ z.
            ((folded u z (heard i).fault).1 ≡ uploaded)
            × ((folded u z (heard i).fault).0.out.sent
                ≡ u.out.sent ++ encode_all (answers fs (0xB1, md5hex))))
          (sym hd) (fold-Answers u (0xB1, md5hex) fs f rest (heard i).fault w' l q y) in
      (
        r.0,
        i',
        rw (fine, upload) (rw (t, upload_loop) (loop ∙ ap (λ x. some ((r.0, x), i')) a)),
        b
            ∙ ap (λ t. t ++ encode_all (answers fs (0xB1, md5hex)))
                (s ∙ ap (λ t. t ++ encode 0xB1 md5hex) begun)
            ∙ simp append_assoc,
      )
