-- ===== src/Examples/Transfers.antt =====
-- The theorems on the connection, applied to a file of five bytes in packets of two.
use makera_cnc_controller.Base.{ℕ, ◌≡◌, refl, none, some, List, [], ◌∷◌, ◌++◌, ◌==◌, any, arith}
use makera_cnc_controller.Base.Text.{codes}
use makera_cnc_controller.Protocol.{Frame, encode}
use makera_cnc_controller.Relay.Download.{uint32_bytes, uint32_of, filled}
use makera_cnc_controller.Relay.Download.Packets.{file_reader}
use makera_cnc_controller.Protocol.Escape.{upload_command, query_status}
use makera_cnc_controller.Protocol.Scanner.{push, parse_one}
use makera_cnc_controller.Protocol.{crc16}
use makera_cnc_controller.Protocol.RoundTrip.{encode_all}
use makera_cnc_controller.Client.{
  Outbound, Inbound, got, timeout, is_timeout, each_frame, frame_loop, read_frame, read_loop,
  absorb, received, remaining, frames_left, write_frame, write_all,
}
use makera_cnc_controller.Client.Answers.{answers, upload_replies}
use makera_cnc_controller.Client.Commands.{Conn, transact}
use makera_cnc_controller.Client.Queries.{
  query_state, drain_available_frames, drain_round, drain_fault, state_round, after_drain,
}
use makera_cnc_controller.Client.Fresh.{Reports, behind_first, query_state_fresh}
use makera_cnc_controller.Client.Loops.{heard, heard_reads}
use makera_cnc_controller.Client.Transfer.{
  data_packet, chunk_length, packet_offset, packet_count, Upload, uploaded, upload,
}
use makera_cnc_controller.Client.Transfer.Download.{FetchEnd, download}
use makera_cnc_controller.Client.Phases.{Whole}
use makera_cnc_controller.Client.Fetched.{download_intact}
use makera_cnc_controller.Client.Answering.{digest, view, next_packet, last, stray}
use makera_cnc_controller.Client.Completion.{download_completes}

abbrev hello : List ℕ
hello = codes "hello"

abbrev framed : ℕ → List ℕ → Frame
framed cmd bytes = record { cmd = cmd; data_bytes = bytes; raw = [] }

abbrev seq : ℕ → List ℕ → List ℕ
seq n bytes = 0 ∷ 0 ∷ 0 ∷ n ∷ bytes

-- Its answers to a download, the second packet coming twice.
abbrev served_frames : List Frame
served_frames =
    framed 0xB1 (codes "5d41")
    ∷ framed 0xB2 (seq 3 (0 ∷ 2 ∷ []))
    ∷ framed 0xB3 (seq 1 (codes "he"))
    ∷ framed 0xB3 (seq 1 (codes "he"))
    ∷ framed 0xB3 (seq 2 (codes "ll"))
    ∷ framed 0xB3 (seq 3 (codes "o"))
    ∷ []

abbrev quiet : Outbound
quiet = record { sent = []; writes = [] }

abbrev serving : Inbound
serving = record { pending = served_frames; buffer = []; reads = [] }

download_intact_example :
    (r : FetchEnd) × (i' : Inbound) × (download (codes "/a.nc") [] quiet serving ≡ some (r, i'))
    × Whole hello 2 (any (λ f. f.cmd == 0xB4) (heard serving).frames) r
unfolding heard heard_reads data_packet chunk_length packet_offset packet_count uint32_of
    uint32_bytes filled
download_intact_example =
    download_intact hello 2 (omega arith) (omega arith) (codes "/a.nc") quiet serving (
      (λ h. cc, λ h k. cc),
      (
        (λ h. refl, λ h k. cc),
        (
          (λ h. cc, λ h k. refl),
          ((λ h. cc, λ h k. refl), ((λ h. cc, λ h k. refl), ((λ h. cc, λ h k. refl), tt))),
        ),
      ),
    )

download_completes_example :
    (r : FetchEnd) × (i' : Inbound) × (download (codes "/a.nc") [] quiet serving ≡ some (r, i'))
    × (r.1 ≡ none)
unfolding heard heard_reads uint32_of
download_completes_example = download_completes 3 (omega arith) (codes "/a.nc") quiet serving refl (
    digest refl (
      view refl refl refl (omega arith) (
        next_packet (refl, refl, refl) (omega arith)
          (stray refl (refl, refl)
            (next_packet (refl, refl, refl) (omega arith) (last (refl, refl, refl) refl))))))

-- What a machine asks for: packet 2, its repetition, and the end.
abbrev requests : List Frame
requests = framed 0xB3 (seq 2 []) ∷ framed 0xB6 [] ∷ []

abbrev asking : Inbound
asking = record { pending = requests ++ framed 0xB4 [] ∷ []; buffer = []; reads = [] }

upload_replies_example :
    (u : Upload) × (i' : Inbound) × (upload
        (file_reader hello)
        5
        2
        (codes "/a.nc")
        (codes "5d41")
        quiet
        asking
      ≡ some ((u, uploaded), i'))
    × (u.out.sent
        ≡ upload_command (codes "/a.nc")
          ++ encode_all
              ((0xB1, codes "5d41") ∷ answers hello 2 (codes "5d41") requests (0xB1, codes "5d41")))
unfolding heard heard_reads uint32_of
upload_replies_example =
    upload_replies hello 2 (codes "5d41") (codes "/a.nc") quiet asking requests (framed 0xB4 []) []
      refl refl ((refl, refl, λ h. (omega arith, omega arith)), ((refl, refl, λ h. cc), tt)) refl

-- A report waits when the query is made, and another comes behind it.
abbrev querying : Conn
querying = record {
  out = quiet;
  inbound = record {
    pending = framed 0x81 (codes "<Run>") ∷ [];
    buffer = [];
    reads = got [] (some timeout) ∷ got (encode 0x81 (codes "<Idle>")) none ∷ [];
  };
  observed = none;
}

abbrev queried : Conn
queried = record querying {
  out = record { sent = query_status; writes = [] };
  inbound = record { pending = []; buffer = []; reads = [] };
}

query_state_fresh_example : Reports (codes "<Idle>") (heard (behind_first querying.inbound)).frames
unfolding query_state drain_available_frames drain_round drain_fault is_timeout each_frame
    frame_loop read_frame read_loop absorb received remaining frames_left transact state_round
    write_frame write_all push parse_one after_drain encode crc16 query_status
query_state_fresh_example = query_state_fresh querying queried (codes "<Idle>") refl
