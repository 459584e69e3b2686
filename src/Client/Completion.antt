-- ===== src/Client/Completion.antt =====
-- internal/client/conn.go: Download gets a file from a machine that answers.
use makera_cnc_controller.Base.{
  ℕ, ◌+◌, ◌%◌, ◌^◌, ◌<◌, ◌≡◌, refl, ap, ◌∙◌, true, false, not, ◌||◌, none, some, List, [], ◌∷◌,
  ◌++◌, arith, ltb, leb, ◌==◌, length, take, drop, inl, inr, Bool-cases,
}
use makera_cnc_controller.Base.Text.{Text}
use makera_cnc_controller.Protocol.{Frame, encode}
use makera_cnc_controller.Protocol.Escape.{download_command}
use makera_cnc_controller.Relay.Download.{uint32_bytes, uint32_of}
use makera_cnc_controller.Client.{NetError, Outbound, write_frame, Inbound, again, done}
use makera_cnc_controller.Client.Answering.{
  StrayIn, IsPacket, Answers, stray, digest, view, next_packet, last, write_frame-free, ask-again,
  finish-done, sink-all,
}
use makera_cnc_controller.Client.Loops.{heard, fold_frames, fold-again, fold-done, each_frame-Folds}
use makera_cnc_controller.Client.Transfer.Download.{
  DownloadState, wait_md5, wait_view, read_data, Fetch, FetchEnd, req_seq, take_packet,
  download_round, download_step, download_fault, fetch_start, download,
}

module _ (total : ℕ) (small : total < 2 ^ 32) where
  abbrev LiveAt : DownloadState → ℕ → ℕ → ℕ → Type 0
  LiveAt wait_md5 seq next_seq t = Unit {0}
  LiveAt wait_view seq next_seq t = Unit {0}
  LiveAt read_data seq next_seq t = (next_seq ≡ seq) × (t ≡ total)

  -- The variables where the loop waits for packet `seq`, with nothing in its way.
  abbrev Live : DownloadState → ℕ → Fetch → Type 0
  Live st seq d =
      (d.state ≡ st) × (d.sinks ≡ []) × (d.out.writes ≡ []) × LiveAt st seq d.next_seq d.total

  stray-again :
      (st : DownloadState) (seq : ℕ) (d : Fetch) (f : Frame)
      → Live st seq d
      → StrayIn st seq f
      → (d' : Fetch) × (download_round st d f ≡ again d') × Live st seq d'
  unfolding download_round
  stray-again wait_md5 seq d f l s = (d, ground arith, l)
  stray-again wait_view seq d f l s = (d, ground arith, l)
  stray-again read_data seq d f (st, sk, w, (nx, tot)) (e, s) =
      elim (Bool-cases (not (f.cmd == 0xB3) || ltb (length f.data_bytes) 4)) [
        | inl y ↦ (d, rw (e, y) refl, (st, sk, w, (nx, tot)))
        | inr n ↦
            let other : (uint32_of (take 4 f.data_bytes) == d.next_seq) ≡ false = ground arith in
            (
              record d { out = (write_frame d.out (encode 0xB3 (uint32_bytes d.next_seq))).0 },
              rw (e, n, other) (unfold req_seq in ask-again d 0xB3 (uint32_bytes d.next_seq) d w),
              (
                st,
                sk,
                (write_frame-free d.out (encode 0xB3 (uint32_bytes d.next_seq)) w).1,
                (nx, tot),
              ),
            )
      ]

  step-of :
      (st : DownloadState) (d : Fetch) (f : Frame)
      → d.state ≡ st
      → (f.cmd == 0xB5) ≡ false
      → download_step d f ≡ download_round st d f
  unfolding download_step
  step-of st d f h n = rw n (ap (λ x. download_round x d f) h)

  taken :
      (d : Fetch) (f : Frame) (seq : ℕ)
      → Live read_data seq d
      → IsPacket seq f
      → download_step d f ≡ take_packet d seq (drop 4 f.data_bytes)
  unfolding download_round
  taken d f seq (st, sk, w, (nx, tot)) (c, long, is) =
      let no_cancel : (f.cmd == 0xB5) ≡ false = ground arith in
      let no_end : (f.cmd == 0xB4) ≡ false = ground arith in
      let same : (uint32_of (take 4 f.data_bytes) == d.next_seq) ≡ true = ground arith in
      step-of read_data d f st no_cancel ∙ rw (no_end, c, long, same, is) refl

  digest-again :
      (seq : ℕ) (d : Fetch) (f : Frame)
      → Live wait_md5 seq d
      → (f.cmd == 0xB1) ≡ true
      → (d' : Fetch) × (download_step d f ≡ again d') × Live wait_view seq d'
  unfolding download_round
  digest-again seq d f (st, sk, w, u) h =
      let no_cancel : (f.cmd == 0xB5) ≡ false = ground arith in
      let d' : Fetch = record d { md5hex = f.data_bytes } in
      (
        record d' { out = (write_frame d.out (encode 0xB2 [])).0; state = wait_view },
        step-of wait_md5 d f st no_cancel
            ∙ rw h (ask-again d' 0xB2 [] (record d' { state = wait_view }) w),
        (refl, sk, (write_frame-free d.out (encode 0xB2 []) w).1, tt),
      )

  view-again :
      (seq : ℕ) (d : Fetch) (f : Frame)
      → Live wait_view seq d
      → (f.cmd == 0xB2) ≡ true
      → ltb (length f.data_bytes) 6 ≡ false
      → uint32_of (take 4 f.data_bytes) ≡ total
      → 0 < total
      → (d' : Fetch) × (download_step d f ≡ again d') × Live read_data 1 d'
  unfolding download_round
  view-again seq d f (st, sk, w, u) h long t pos =
      let no_cancel : (f.cmd == 0xB5) ≡ false = ground arith in
      let n : Fetch = record d { total = uint32_of (take 4 f.data_bytes); next_seq = 1 } in
      let some_left : (uint32_of (take 4 f.data_bytes) == 0) ≡ false = ground arith in
      (
        record n { out = (write_frame d.out (encode 0xB3 (uint32_bytes 1))).0; state = read_data },
        step-of wait_view d f st no_cancel
            ∙ rw (h, long, some_left)
                (unfold req_seq in
                  ask-again n 0xB3 (uint32_bytes 1) (record n { state = read_data }) w),
        (refl, sk, (write_frame-free d.out (encode 0xB3 (uint32_bytes 1)) w).1, (refl, t)),
      )

  packet-again :
      (seq : ℕ) (d : Fetch) (f : Frame)
      → Live read_data seq d
      → IsPacket seq f
      → seq < total
      → (d' : Fetch) × (download_step d f ≡ again d') × Live read_data (seq + 1) d'
  unfolding take_packet
  packet-again seq d f (st, sk, w, (nx, tot)) is lt =
      let bytes = drop 4 f.data_bytes in
      let n : Fetch = record d {
        file = d.file ++ bytes;
        progress = d.progress ++ (seq, d.total) ∷ [];
        next_seq = (d.next_seq + 1) % 2 ^ 32;
      } in
      let more : leb d.total seq ≡ false = ground arith in
      let goes : (d.next_seq + 1) % 2 ^ 32 ≡ seq + 1 = omega (arith, nx) in
      (
        record n { out = (write_frame d.out (encode 0xB3 (uint32_bytes n.next_seq))).0 },
        taken d f seq (st, sk, w, (nx, tot)) is
            ∙ rw (sink-all d d.sinks bytes sk, more)
                (unfold req_seq in ask-again n 0xB3 (uint32_bytes n.next_seq) n w),
        (st, sk, (write_frame-free d.out (encode 0xB3 (uint32_bytes n.next_seq)) w).1, (goes, tot)),
      )

  last-done :
      (seq : ℕ) (d : Fetch) (f : Frame)
      → Live read_data seq d
      → IsPacket seq f
      → seq ≡ total
      → (r : FetchEnd) × (download_step d f ≡ done r) × (r.1 ≡ none)
  unfolding take_packet
  last-done seq d f (st, sk, w, (nx, tot)) is eq =
      let bytes = drop 4 f.data_bytes in
      let p : Fetch = record d {
        file = d.file ++ bytes;
        progress = d.progress ++ (seq, d.total) ∷ [];
      } in
      let all : leb d.total seq ≡ true = ground arith in
      (
        (record p { out = (write_frame d.out (encode 0xB4 [])).0 }, none),
        taken d f seq (st, sk, w, (nx, tot)) is
            ∙ rw (sink-all d d.sinks bytes sk, all) (finish-done p w),
        refl,
      )

  fold-Completes :
      {st : DownloadState} {seq : ℕ} {fs : List Frame} (d : Fetch) (e : NetError)
      → Live st seq d
      → Answers total st seq fs
      → (fold_frames download_fault download_step d fs e).1 ≡ none
  fold-Completes d e l (stray {st} {seq} {f} {fs} n s more) =
      let (d', r, l') = stray-again st seq d f l s in
      ap (λ r. r.1) (fold-again download_fault download_step d f fs e d' (step-of st d f l.0 n ∙ r))
      ∙ fold-Completes d' e l' more
  fold-Completes d e l (digest {seq} {f} {fs} h more) =
      let (d', r, l') = digest-again seq d f l h in
      ap (λ r. r.1) (fold-again download_fault download_step d f fs e d' r)
      ∙ fold-Completes d' e l' more
  fold-Completes d e l (view {seq} {f} {fs} h long t pos more) =
      let (d', r, l') = view-again seq d f l h long t pos in
      ap (λ r. r.1) (fold-again download_fault download_step d f fs e d' r)
      ∙ fold-Completes d' e l' more
  fold-Completes d e l (next_packet {seq} {f} {fs} h lt more) =
      let (d', r, l') = packet-again seq d f l h lt in
      ap (λ r. r.1) (fold-again download_fault download_step d f fs e d' r)
      ∙ fold-Completes d' e l' more
  fold-Completes d e l (last {seq} {f} {fs} h eq) =
      let (r, t, ok) = last-done seq d f l h eq in
      ap (λ r. r.1) (fold-done download_fault download_step d f fs e r t) ∙ ok

  -- Where writes go through and the writer takes all, Download returns without an error if the machine answers with its
  -- MD5, a view of fewer than 2 ^ 32 packets and these packets in order, whatever stray frames come between.
  pub download_completes :
      (remote_path : Text) (o : Outbound) (i : Inbound)
      → o.writes ≡ []
      → Answers total wait_md5 0 (heard i).frames
      → (r : FetchEnd) × (i' : Inbound) × (download remote_path [] o i ≡ some (r, i'))
        × (r.1 ≡ none)
  unfolding download
  download_completes remote_path o i w h =
      let (fine, later) = write_frame-free o (download_command remote_path) w in
      let d = fetch_start (write_frame o (download_command remote_path)).0 [] in
      let (i', folded) = each_frame-Folds download_fault download_step d i in
      (
        fold_frames download_fault download_step d (heard i).frames (heard i).fault,
        i',
        rw (fine, download) folded,
        fold-Completes d (heard i).fault (refl, refl, later, tt) h,
      )
