-- ===== src/Client.antt =====
-- internal/client/conn.go: the connection over which the proxy speaks to the machine.
-- `Inbound` is what is read and `Outbound` what is written. Each call of Read, SetReadDeadline and Write ends as a
-- list says; behind its end nothing comes any more, so that a read meets its deadline, and writes go through.
pub mod Loops
pub mod Transfer
pub mod Answering
pub mod Phases
pub mod Fetched
pub mod Answers
pub mod Completion
pub mod Packets
pub mod Commands
pub mod Queries
pub mod Fresh
use makera_cnc_controller.Base.{
  ℕ, zero, suc, ◌+◌, ◌-◌, ◌*◌, ◌≡◌, Bool, true, false, not, ◌&&◌, ◌||◌, Option, none, some, List,
  [], ◌∷◌, ◌++◌, ltb, ◌==◌, if◌then◌else◌, length, take, drop,
}
use makera_cnc_controller.Protocol.{Frame}
use makera_cnc_controller.Protocol.Scanner.{push}

-- `net_failure` is any other net.Error; `no_progress` is the only one that is no fault of the connection.
pub data NetError : Type 0 where
  timeout net_failure eof closed no_progress : NetError

unfoldable pub is_timeout : NetError → Bool
is_timeout timeout = true
is_timeout _ = false

pub data WriteResult : Type 0 where
  wrote : ℕ → WriteResult
  write_failed : ℕ → NetError → WriteResult

pub record Outbound : Type 0 where
  pub sent : List ℕ
  pub writes : List WriteResult

-- The loop of writeFrame on the bytes that are left: what is sent, the writes still to come, the error.
pub record Written : Type 0 where
  pub gone : List ℕ
  pub later : List WriteResult
  pub fault : Option NetError

unfoldable pub write_all : List WriteResult → List ℕ → Written
write_all [] b = record { gone = b; later = []; fault = none }
write_all (write_failed n e ∷ ws) b =
    if length b == 0
    then record { gone = []; later = write_failed n e ∷ ws; fault = none }
    else record { gone = take n b; later = ws; fault = some e }
write_all (wrote n ∷ ws) b =
    let rest = write_all ws (drop n b) in
    let more : Written = record rest { gone = take n b ++ rest.gone } in
    if length b == 0
    then record { gone = []; later = wrote n ∷ ws; fault = none }
    else if n == 0
    then record { gone = []; later = ws; fault = some no_progress }
    else more

unfoldable pub write_frame : Outbound → List ℕ → Outbound × Option NetError
write_frame o b =
    let w = write_all o.writes b in (record { sent = o.sent ++ w.gone; writes = w.later }, w.fault)

-- `refused` is a SetReadDeadline that fails.
pub data ReadResult : Type 0 where
  refused : NetError → ReadResult
  got : List ℕ → Option NetError → ReadResult

pub record Inbound : Type 0 where
  pub pending : List Frame
  pub buffer : List ℕ
  pub reads : List ReadResult

pub data Received : Type 0 where
  frame : Frame → Inbound → Received
  failed : NetError → Inbound → Received

-- `if n > 0 { frames := k.scan.Push(buf[:n]) ... }`
unfoldable pub absorb : List ℕ → List ℕ → List Frame × List ℕ
absorb buffer bytes = if length bytes == 0 then ([], buffer) else push buffer bytes

-- The frames of one read, unless there are none; then its error, unless there is none.
unfoldable pub received :
    List Frame → List ℕ → Option NetError → List ReadResult → Received → Received
received (f ∷ fs) b e rs next = frame f (record { pending = fs; buffer = b; reads = rs })
received [] b (some e) rs next = failed e (record { pending = []; buffer = b; reads = rs })
received [] b none rs next = next

-- The loop of readFrame.
unfoldable pub read_loop : List ReadResult → List ℕ → Received
unfolding received
read_loop [] b = failed timeout (record { pending = []; buffer = b; reads = [] })
read_loop (refused e ∷ rs) b = failed e (record { pending = []; buffer = b; reads = rs })
read_loop (got bytes e ∷ rs) b =
    let (fs, b') = absorb b bytes in received fs b' e rs (read_loop rs b')

read_pending : Inbound → List Frame → Received
read_pending i [] = read_loop i.reads i.buffer
read_pending i (f ∷ fs) = frame f (record i { pending = fs })

unfoldable pub read_frame : Inbound → Received
unfolding read_pending
read_frame i = read_pending i i.pending

-- The frames still to come, which is fuel enough for a loop that reads one in each round.
unfoldable pub frames_left : List ReadResult → List ℕ → ℕ
frames_left [] b = 0
frames_left (refused e ∷ rs) b = frames_left rs b
frames_left (got bytes e ∷ rs) b = let (fs, b') = absorb b bytes in length fs + frames_left rs b'

unfoldable pub remaining : Inbound → ℕ
remaining i = length i.pending + frames_left i.reads i.buffer

-- What a round of a loop ends with: the loop's variables, or its result.
pub data Turn (S R : Type 0) : Type 0 where
  again : S → Turn S R
  done : R → Turn S R

-- `for { f, err := k.readFrame(deadline); if err != nil { return ... }; switch f.Cmd { ... } }`
module _ {S R : Type 0} (on_fault : S → NetError → R) (round : S → Frame → Turn S R) where
  unfoldable pub frame_loop : ℕ → S → Inbound → Option (R × Inbound)
  frame_loop zero s i = none
  frame_loop (suc fuel) s i = elim (read_frame i) [
    | failed e i' ↦ some (on_fault s e, i')
    | frame f i' ↦ elim (round s f) [ again s' ↦ frame_loop fuel s' i' | done r ↦ some (r, i') ]
  ]

  unfoldable pub each_frame : S → Inbound → Option (R × Inbound)
  unfolding frame_loop remaining
  each_frame s i = frame_loop (suc (remaining i)) s i
