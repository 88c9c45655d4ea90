-- ===== src/Streams.antt =====
-- src/aisb/streams.py: `demux`, the splitter of Docker's multiplexed stdout and stderr. A byte is
-- a number. `demux` is a generator, so a run is the frames that it yields and how it ends.
pub mod Chunks
pub mod RoundTrip
mod Tests
use aisb.Prelude.{
  ℕ, zero, suc, ◌+◌, ◌*◌, Bool, Option, none, some, List, [], ◌∷◌, ◌++◌, length, take, drop, get_or,
  ltb, eqb, if◌then◌else◌,
}

pub data Stream : Type 0 where
  stdin stdout stderr : Stream

pub record Frame : Type 0 where
  pub stream : Stream
  pub payload : List ℕ

-- `ValueError`, from `Stream(kind)` or for bytes that are left over; `out_of_fuel` belongs to the
-- model only.
pub data Error : Type 0 where
  bad_stream : ℕ → Error
  truncated : ℕ → Error
  out_of_fuel : Error

-- `_HEADER.size` of ">BxxxL"
abbrev pub header_size : ℕ
header_size = 8

pub stream_of : ℕ → Option Stream
stream_of kind =
    if eqb kind 0
    then some stdin
    else if eqb kind 1
    then some stdout
    else if eqb kind 2
    then some stderr
    else none

-- `_HEADER.unpack_from(buf)`: the first byte, and the big-endian number in the last four
abbrev pub kind_of : List ℕ → ℕ
kind_of buf = get_or buf 0 0

abbrev pub size_of : List ℕ → ℕ
size_of buf =
    ((get_or buf 4 0 * 256 + get_or buf 5 0) * 256 + get_or buf 6 0) * 256 + get_or buf 7 0

-- How the inner loop stops: it waits for more bytes, or `Stream(kind)` raises.
pub data Stop : Type 0 where
  left : List ℕ → Stop
  raised : Error → Stop

pub record Run (E : Type 0) : Type 0 where
  pub frames : List Frame
  pub ends : E

abbrev pub yield_then : {E : Type 0} → Frame → Run E → Run E
yield_then f r = record { frames = f ∷ r.frames; ends = r.ends }

abbrev pub after_stream : ℕ → Option Stream → List ℕ → Run Stop → Run Stop
after_stream kind none payload rest = record { frames = []; ends = raised (bad_stream kind) }
after_stream kind (some s) payload rest = yield_then (record { stream = s; payload = payload }) rest

-- the `while` loop over the buffer
drain : ℕ → List ℕ → Run Stop
drain zero buf = record { frames = []; ends = raised out_of_fuel }
drain (suc fuel) buf =
    let end = header_size + size_of buf in
    let rest =
      after_stream (kind_of buf) (stream_of (kind_of buf)) (drop header_size (take end buf))
        (drain fuel (drop end buf)) in
    if ltb (length buf) header_size
    then record { frames = []; ends = left buf }
    else if ltb (length buf) end
    then record { frames = []; ends = left buf }
    else rest

-- Each frame takes the eight bytes of its header at least.
unfoldable pub drain_all : List ℕ → Run Stop
unfolding drain stream_of
drain_all buf = drain (suc (length buf)) buf

abbrev pub append_frames : {E : Type 0} → List Frame → Run E → Run E
append_frames fs r = record { frames = fs ++ r.frames; ends = r.ends }

abbrev pub proceed : Run Stop → (List ℕ → Run (Option Error)) → Run (Option Error)
proceed r k = elim r.ends [
  | left buf ↦ append_frames r.frames (k buf)
  | raised e ↦ record { frames = r.frames; ends = some e }
]

-- `if buf: raise ValueError("truncated multiplexed frame ...")`
abbrev pub finish : List ℕ → Run (Option Error)
finish [] = record { frames = []; ends = none }
finish (b ∷ buf) = record { frames = []; ends = some (truncated (length (b ∷ buf))) }

demux_from : List ℕ → List (List ℕ) → Run (Option Error)
demux_from buf [] = finish buf
demux_from buf (chunk ∷ chunks) =
    let r = drain_all (buf ++ chunk) in proceed r (λ rest. demux_from rest chunks)

unfoldable pub demux : List (List ℕ) → Run (Option Error)
unfolding demux_from drain_all
demux chunks = demux_from [] chunks
