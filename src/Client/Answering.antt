-- ===== src/Client/Answering.antt =====
-- internal/client/conn.go: a machine that answers Download, and writes that go through.
use mathlib.Core.List.{cons-ne-nil}
use makera_cnc_controller.Base.{
  ℕ, ◌+◌, ◌<◌, ◌≡◌, refl, true, false, not, ◌&&◌, Option, none, List, [], ◌∷◌, ◌++◌, ltb, ◌==◌,
  length, take,
}
use makera_cnc_controller.Protocol.{Frame, encode}
use makera_cnc_controller.Relay.Download.{uint32_of}
use makera_cnc_controller.Client.{WriteResult, Outbound, write_all, write_frame, again, done}
use makera_cnc_controller.Client.Transfer.Download.{
  DownloadState, wait_md5, wait_view, read_data, Fetch, ask, finish, sink,
}

-- A frame that the loop passes over, with the packet that it waits for: neither FILE_CANCEL, nor FILE_END in the
-- middle of the data, nor what moves the state on.
abbrev pub StrayIn : DownloadState → ℕ → Frame → Type 0
StrayIn wait_md5 seq f = (f.cmd == 0xB1) ≡ false
StrayIn wait_view seq f = (f.cmd == 0xB2) ≡ false
StrayIn read_data seq f =
    ((f.cmd == 0xB4) ≡ false)
    × ((f.cmd == 0xB3
          && not (ltb (length f.data_bytes) 4)
          && (uint32_of (take 4 f.data_bytes) == seq))
        ≡ false)

abbrev pub IsPacket : ℕ → Frame → Type 0
IsPacket seq f =
    ((f.cmd == 0xB3) ≡ true)
    × (ltb (length f.data_bytes) 4 ≡ false)
    × (uint32_of (take 4 f.data_bytes) ≡ seq)

-- The machine sends its MD5, a FILE_VIEW of `total` packets and the packets from `seq` on, in this order, with any
-- stray frames between them; what follows the last packet is free.
pub data Answers (total : ℕ) : DownloadState → ℕ → List Frame → Type 0 where
  stray :
      {st : DownloadState} {seq : ℕ} {f : Frame} {fs : List Frame}
      → (f.cmd == 0xB5) ≡ false
      → StrayIn st seq f
      → Answers total st seq fs
      → Answers total st seq (f ∷ fs)
  digest :
      {seq : ℕ} {f : Frame} {fs : List Frame}
      → (f.cmd == 0xB1) ≡ true
      → Answers total wait_view seq fs
      → Answers total wait_md5 seq (f ∷ fs)
  view :
      {seq : ℕ} {f : Frame} {fs : List Frame}
      → (f.cmd == 0xB2) ≡ true
      → ltb (length f.data_bytes) 6 ≡ false
      → uint32_of (take 4 f.data_bytes) ≡ total
      → 0 < total
      → Answers total read_data 1 fs
      → Answers total wait_view seq (f ∷ fs)
  next_packet :
      {seq : ℕ} {f : Frame} {fs : List Frame}
      → IsPacket seq f
      → seq < total
      → Answers total read_data (seq + 1) fs
      → Answers total read_data seq (f ∷ fs)
  last :
      {seq : ℕ} {f : Frame} {fs : List Frame}
      → IsPacket seq f
      → seq ≡ total
      → Answers total read_data seq (f ∷ fs)

write_all-free :
    (ws : List WriteResult) (b : List ℕ)
    → ws ≡ []
    → ((write_all ws b).fault ≡ none) × ((write_all ws b).later ≡ [])
unfolding write_all
write_all-free [] b h = (refl, refl)
write_all-free (w ∷ ws) b h = absurd (cons-ne-nil w ws h)

-- Where writes go through, so does this one.
pub write_frame-free :
    (o : Outbound) (b : List ℕ)
    → o.writes ≡ []
    → ((write_frame o b).1 ≡ none) × ((write_frame o b).0.writes ≡ [])
unfolding write_frame
write_frame-free o b h = write_all-free o.writes b h

pub ask-again :
    (d : Fetch) (cmd : ℕ) (payload : List ℕ) (next : Fetch)
    → d.out.writes ≡ []
    → ask d cmd payload next
      ≡ again (record next { out = (write_frame d.out (encode cmd payload)).0 })
unfolding ask
ask-again d cmd payload next h = rw ((write_frame-free d.out (encode cmd payload) h).0, ask)

pub finish-done :
    (d : Fetch)
    → d.out.writes ≡ []
    → finish d ≡ done (record d { out = (write_frame d.out (encode 0xB4 [])).0 }, none)
unfolding finish
finish-done d h = rw ((write_frame-free d.out (encode 0xB4 []) h).0, finish)

pub sink-all :
    (d : Fetch) (ss : List (Option ℕ)) (bytes : List ℕ)
    → ss ≡ []
    → sink d ss bytes ≡ (record d { file = d.file ++ bytes }, true)
unfolding sink
sink-all d [] bytes h = refl
sink-all d (s ∷ ss) bytes h = absurd (cons-ne-nil s ss h)
