-- ===== src/Streams/RoundTrip.antt =====
-- What is framed as the header of src/aisb/streams.py says is read back.
use aisb.Prelude.{
  inl, ℕ, ◌+◌, ◌/◌, ◌%◌, ◌^◌, ◌<◌, ◌≡◌, refl, ◌∙◌, none, some, List, [], ◌∷◌, ◌++◌, append-nil,
  arith, length, drop, flatten, All, take-append, drop-append, length-append,
}
use aisb.Streams.{
  after_stream, Stream, stdin, stdout, stderr, Frame, Run, Stop, left, header_size, size_of,
  kind_of, stream_of, yield_then, drain_all, demux,
}
use aisb.Streams.Chunks.{HasFrame, drain_all_part, drain_all_frame, demux_lem}

unfoldable pub code_of : Stream → ℕ
code_of stdin = 0
code_of stdout = 1
code_of stderr = 2

-- Docker's frame: the stream, three zeros, the size in four bytes, the largest first, the payload
unfoldable pub encode : Frame → List ℕ
unfolding code_of
encode f =
    let n = length f.payload in
    code_of f.stream
    ∷ 0
    ∷ 0
    ∷ 0
    ∷ (n / 2 ^ 24 % 256)
    ∷ (n / 2 ^ 16 % 256)
    ∷ (n / 2 ^ 8 % 256)
    ∷ (n % 256)
    ∷ f.payload

unfoldable pub encode_all : List Frame → List ℕ
unfolding encode
encode_all [] = []
encode_all (f ∷ fs) = encode f ++ encode_all fs

abbrev pub Fits : Frame → Type 0
Fits f = length f.payload < 2 ^ 32

stream_of-code_of : (s : Stream) → stream_of (code_of s) ≡ some s
unfolding stream_of code_of
stream_of-code_of stdin = refl
stream_of-code_of stdout = refl
stream_of-code_of stderr = refl

size_of-encode :
    (f : Frame) (more : List ℕ) → Fits f → size_of (encode f ++ more) ≡ length f.payload
unfolding encode
size_of-encode f more h = omega arith

length-encode : (f : Frame) → length (encode f) ≡ header_size + length f.payload
unfolding encode
length-encode f = omega arith

HasFrame-encode : (f : Frame) (more : List ℕ) → Fits f → HasFrame (encode f ++ more)
HasFrame-encode f more h = (
  omega (arith, length-encode f, length-append (encode f) more),
  rw (size_of-encode f more h) (omega (arith, length-encode f, length-append (encode f) more)),
)

front :
    (f : Frame) (r : Run Stop)
    → after_stream
        (kind_of (encode f))
        (stream_of (kind_of (encode f)))
        (drop header_size (encode f))
        r
      ≡ yield_then f r
unfolding encode
front f r = rw (stream_of-code_of f.stream)

kind_of-encode : (f : Frame) (more : List ℕ) → kind_of (encode f ++ more) ≡ kind_of (encode f)
unfolding encode
kind_of-encode f more = refl

drain_all-encode :
    (f : Frame) (more : List ℕ)
    → Fits f
    → drain_all (encode f ++ more) ≡ yield_then f (drain_all more)
drain_all-encode f more h =
    drain_all_frame (encode f ++ more) (HasFrame-encode f more h)
    ∙ rw (size_of-encode f more h, kind_of-encode, ← length-encode f, take-append, drop-append)
        (front f (drain_all more))

drain_all-encode_all :
    (fs : List Frame)
    → All Fits fs
    → drain_all (encode_all fs) ≡ record { frames = fs; ends = left [] }
unfolding encode_all
drain_all-encode_all [] h = drain_all_part [] (inl (omega arith))
drain_all-encode_all (f ∷ fs) (h, hs) =
    rw (drain_all-encode f (encode_all fs) h, drain_all-encode_all fs hs)

-- Frames whose sizes fit the header come out as they went in, and `demux` ends well, however the
-- bytes are cut into chunks.
pub demux-encode_all :
    (fs : List Frame) (chunks : List (List ℕ))
    → All Fits fs
    → flatten chunks ≡ encode_all fs
    → demux chunks ≡ record { frames = fs; ends = none }
demux-encode_all fs chunks h e = rw (demux_lem chunks, e, drain_all-encode_all fs h, append-nil)
