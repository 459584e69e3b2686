-- ===== src/Client/Fetched.antt =====
-- internal/client/conn.go: Download from a machine that answers with the packets of Upload.
use mathlib.Core.Path.{subst}
use makera_cnc_controller.Base.{
  ℕ, suc, ◌+◌, ◌-◌, ◌*◌, ◌%◌, ◌^◌, ◌≤◌, ◌<◌, ◌≡◌, refl, sym, ap, ◌∙◌, Bool, true, false, not, ◌||◌,
  some, List, [], ◌∷◌, ◌++◌, arith, ltb, leb, ◌==◌, length, take, drop, any, All, inl, inr,
  Bool-cases, Option-cases,
}
use makera_cnc_controller.Base.Slices.{take_all, take-add}
use makera_cnc_controller.Base.Text.{Text}
use makera_cnc_controller.Protocol.{Frame, encode}
use makera_cnc_controller.Relay.Download.{uint32_bytes, uint32_of}
use makera_cnc_controller.Relay.Download.Packets.{file_reader}
use makera_cnc_controller.Protocol.Escape.{download_command}
use makera_cnc_controller.Client.{NetError, Outbound, write_frame, Inbound}
use makera_cnc_controller.Client.Phases.{
  packets_cover, Serves, Prefix, Phase, Inv, Whole, Kept, empty_prefix, prefix_of, ask-Kept,
}
use makera_cnc_controller.Client.Loops.{
  heard, Turn-cases, fold_frames, fold-again, fold-done, each_frame-Folds,
}
use makera_cnc_controller.Client.Answering.{sink-all}
use makera_cnc_controller.Client.Packets.{part, data_packet_lem}
use makera_cnc_controller.Client.Transfer.{net, data_packet, packet_count}
use makera_cnc_controller.Client.Transfer.Download.{
  DownloadState, wait_md5, wait_view, read_data, Fetch, FetchEnd, req_seq, finish, take_packet,
  download_round, download_step, download_fault, fetch_start, download,
}

module _ (content : List ℕ) (ps : ℕ) where
  module _ (pos : 0 < ps) (fits : length content ≤ (2 ^ 32 - 1) * ps) where
    finish-Kept : (ended : Bool) (d : Fetch) → d.file ≡ content → Kept content ps ended (finish d)
    unfolding finish
    finish-Kept ended d h =
        let (cover, _, _) = packets_cover (file_reader content) (length content) ps pos fits in
        let n = packet_count (file_reader content) (length content) ps in
        let p : Prefix content ps d.file = (n, h ∙ sym (take_all (n * ps) content cover)) in
        elim (Option-cases (write_frame d.out (encode 0xB4 [])).1) [
          | inl ok ↦ rw (ok, Kept) (p, λ e. inl h)
          | inr (e, bad) ↦ rw (bad, Kept) (p, λ h. cc)
        ]

    -- A file of the first m packets, with packet m + 1 behind it.
    grown :
        (file bytes : List ℕ) (m : ℕ)
        → file ≡ take (m * ps) content
        → bytes ≡ part content ps m
        → file ++ bytes ≡ take (suc m * ps) content
    grown file bytes m e b =
        ap (λ t. t ++ bytes) e
        ∙ ap (λ t. take (m * ps) content ++ t) b
        ∙ take-add (m * ps) ps content
        ∙ ap (λ t. take t content) (let e : m * ps + ps ≡ suc m * ps = omega arith in e)

    data-Kept :
        (ended : Bool) (d : Fetch) (bytes : List ℕ) (m : ℕ)
        → d.state ≡ read_data
        → d.sinks ≡ []
        → d.next_seq ≡ suc m
        → m < packet_count (file_reader content) (length content) ps
        → d.total ≡ packet_count (file_reader content) (length content) ps
        → d.file ++ bytes ≡ take (suc m * ps) content
        → Kept content ps ended (take_packet d (suc m) bytes)
    unfolding take_packet req_seq
    data-Kept ended d bytes m st sk nx lt tot fe =
        let (cover, top, _) = packets_cover (file_reader content) (length content) ps pos fits in
        let count = packet_count (file_reader content) (length content) ps in
        let p : Fetch = record d {
          file = d.file ++ bytes;
          progress = d.progress ++ (suc m, d.total) ∷ [];
        } in
        let n : Fetch = record p { next_seq = (d.next_seq + 1) % 2 ^ 32 } in
        elim (Bool-cases (leb d.total (suc m))) [
          | inl last ↦
              let all : count ≤ suc m = ground arith in
              let long : count * ps ≤ suc m * ps = grind arith in
              rw (sink-all d d.sinks bytes sk, last)
                (finish-Kept ended p (fe ∙ take_all (suc m * ps) content (omega arith)))
          | inr more ↦
              let left : suc m < count = ground arith in
              let goes : n.next_seq ≡ suc (suc m) = omega (arith, nx) in
              let ph : Phase content ps read_data n = (suc m, goes, left, tot, fe) in
              rw (sink-all d d.sinks bytes sk, more)
                (ask-Kept content ps ended n 0xB3 (uint32_bytes n.next_seq) n (suc m, fe)
                  (subst (λ x. Phase content ps x n) (sym st) ph, sk))
        ]

    -- The bytes behind the number of a packet that the machine sends.
    served :
        (f : Frame) (m : ℕ)
        → suc m < 2 ^ 32
        → data_packet (file_reader content) (length content) ps (suc m) ≡ some f.data_bytes
        → drop 4 f.data_bytes ≡ part content ps m
    unfolding uint32_bytes
    served f m small h =
        let e : f.data_bytes ≡ uint32_bytes (suc m) ++ part content ps m =
          cc (h, data_packet_lem content ps m small) in
        ap (λ t. drop 4 t) e

    read-Kept :
        (d : Fetch) (f : Frame)
        → Inv content ps d
        → Serves content ps f
        → d.state ≡ read_data
        → Phase content ps read_data d
        → Kept content ps (f.cmd == 0xB4) (download_round read_data d f)
    unfolding download_round req_seq
    read-Kept d f inv sv st (m, nx, lt, tot, fe) =
        let (_, top, _) = packets_cover (file_reader content) (length content) ps pos fits in
        elim (Bool-cases (f.cmd == 0xB4)) [
          | inl y ↦ rw y ((m, fe), λ e. inr refl)
          | inr n ↦ elim (Bool-cases (not (f.cmd == 0xB3) || ltb (length f.data_bytes) 4)) [
            | inl y ↦ rw (n, y) inv
            | inr k ↦ elim (Bool-cases (uint32_of (take 4 f.data_bytes) == d.next_seq)) [
              | inl y ↦
                  let q : uint32_of (take 4 f.data_bytes) ≡ suc m = ground arith in
                  let cmd : (f.cmd == 0xB3) ≡ true = ground arith in
                  let long : ltb (length f.data_bytes) 4 ≡ false = ground arith in
                  let b : drop 4 f.data_bytes ≡ part content ps m = served f m (omega arith) (
                    subst
                      (λ x.
                        data_packet (file_reader content) (length content) ps x ≡ some f.data_bytes)
                      q (sv.1 cmd long)) in
                  rw (n, k, y, q)
                    (data-Kept false d (drop 4 f.data_bytes) m st inv.1 nx lt tot
                      (grown d.file (drop 4 f.data_bytes) m fe b))
              | inr z ↦
                  rw (n, k, z)
                    (ask-Kept content ps false d 0xB3 (uint32_bytes d.next_seq) d (m, fe) inv)
            ]
          ]
        ]

    round-Kept :
        (st : DownloadState) (d : Fetch) (f : Frame)
        → d.state ≡ st
        → Inv content ps d
        → Phase content ps st d
        → Serves content ps f
        → Kept content ps (f.cmd == 0xB4) (download_round st d f)
    unfolding download_round req_seq
    round-Kept wait_md5 d f e inv ph sv =
        let d' : Fetch = record d { md5hex = f.data_bytes } in
        let p = prefix_of content ps wait_md5 d ph in
        elim (Bool-cases (f.cmd == 0xB1)) [
          | inl y ↦ rw y (
              ask-Kept content ps (f.cmd == 0xB4) d' 0xB2 [] (record d' { state = wait_view }) p
                (ph, inv.1))
          | inr n ↦ rw n inv
        ]
    round-Kept wait_view d f e inv ph sv =
        let (_, _, some_left) = packets_cover (file_reader content) (length content) ps pos fits in
        let total = uint32_of (take 4 f.data_bytes) in
        let n : Fetch = record d { total = total; next_seq = 1 } in
        let p = prefix_of content ps wait_view d ph in
        elim (Bool-cases (f.cmd == 0xB2)) [
          | inr k ↦ rw k inv
          | inl y ↦ elim (Bool-cases (ltb (length f.data_bytes) 6)) [
            | inl short ↦ rw (y, short) (p, λ h. cc)
            | inr long ↦ elim (Bool-cases (total == 0)) [
              | inl z ↦ rw (y, long, z) (p, λ h. cc)
              | inr k ↦
                  rw (y, long, k)
                    (ask-Kept content ps (f.cmd == 0xB4) n 0xB3 (uint32_bytes 1)
                      (record n { state = read_data }) p
                      ((0, refl, some_left, sv.0 y, empty_prefix content ps d.file ph), inv.1))
            ]
          ]
        ]
    round-Kept read_data d f e inv ph sv = read-Kept d f inv sv e ph

    step-Kept :
        (d : Fetch) (f : Frame)
        → Inv content ps d
        → Serves content ps f
        → Kept content ps (f.cmd == 0xB4) (download_step d f)
    unfolding download_step
    step-Kept d f inv sv = elim (Bool-cases (f.cmd == 0xB5)) [
      | inl y ↦ rw y (prefix_of content ps d.state d inv.0, λ h. cc)
      | inr n ↦ rw n (round-Kept d.state d f refl inv inv.0 sv)
    ]

    weaken :
        (a b : Bool) (r : FetchEnd)
        → Whole content ps a r
        → (a ≡ true → b ≡ true)
        → Whole content ps b r
    weaken a b r (p, h) k = (p, λ e. elim (h e) [ inl x ↦ inl x | inr y ↦ inr (k y) ])

    fold-Whole :
        (d : Fetch) (fs : List Frame) (e : NetError)
        → Inv content ps d
        → All (Serves content ps) fs
        → Whole content ps
            (any (λ f. f.cmd == 0xB4) fs)
            (fold_frames download_fault download_step d fs e)
    unfolding fold_frames download_fault
    fold-Whole d [] e inv h = (prefix_of content ps d.state d inv.0, λ h. cc)
    fold-Whole d (f ∷ fs) e inv h =
        let kept = step-Kept d f inv h.0 in
        let ended = any (λ g. g.cmd == 0xB4) (f ∷ fs) in
        elim (Turn-cases (download_step d f)) [
          | inl (d', t) ↦
              subst (Whole content ps ended)
                (sym (fold-again download_fault download_step d f fs e d' t))
                (weaken (any (λ g. g.cmd == 0xB4) fs) ended
                  (fold_frames download_fault download_step d' fs e)
                  (fold-Whole d' fs e (subst (Kept content ps (f.cmd == 0xB4)) t kept) h.1)
                  (λ y. ground arith))
          | inr (r, t) ↦
              subst (Whole content ps ended)
                (sym (fold-done download_fault download_step d f fs e r t))
                (weaken (f.cmd == 0xB4) ended r (subst (Kept content ps (f.cmd == 0xB4)) t kept)
                  (λ y. ground arith))
        ]

    -- A download from a machine that holds the file, in packets of the same size, always ends, whatever is lost, comes
    -- twice, late or between its answers: what the writer has taken is the first packets of the file, and without
    -- an error it is the whole file, unless the machine ended the transfer by a FILE_END.
    pub download_intact :
        (remote_path : Text) (o : Outbound) (i : Inbound)
        → All (Serves content ps) (heard i).frames
        → (r : FetchEnd) × (i' : Inbound) × (download remote_path [] o i ≡ some (r, i'))
          × Whole content ps (any (λ f. f.cmd == 0xB4) (heard i).frames) r
    unfolding download
    download_intact remote_path o i h =
        let (out, fault) = write_frame o (download_command remote_path) in
        let d = fetch_start out [] in
        let ended = any (λ f. f.cmd == 0xB4) (heard i).frames in
        elim (Option-cases (write_frame o (download_command remote_path)).1) [
          | inl fine ↦
              let (i', folded) = each_frame-Folds download_fault download_step d i in
              (
                fold_frames download_fault download_step d (heard i).frames (heard i).fault,
                i',
                rw (fine, download) folded,
                fold-Whole d (heard i).frames (heard i).fault (refl, refl) h,
              )
          | inr (e, bad) ↦ (
            (d, some (net e)),
            i,
            rw (bad, download) refl,
            ((0, empty_prefix content ps [] refl), λ h. cc),
          )
        ]
