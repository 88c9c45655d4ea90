-- ===== src/Streams/Tests.antt =====
-- Runs of `demux` on small inputs.
use aisb.Prelude.{◌≡◌, refl, [], ◌∷◌, none, some, arith}
use aisb.Streams.{Frame, stdout, stderr, truncated, demux}
use aisb.Streams.Chunks.{demux-flatten}
use aisb.Streams.RoundTrip.{encode, encode_all, code_of, demux-encode_all}

two_frames :
    demux (
      (1 ∷ 0 ∷ 0 ∷ [])
      ∷ (0 ∷ 0 ∷ 0 ∷ 0 ∷ 2 ∷ 104 ∷ [])
      ∷ (105 ∷ 2 ∷ 0 ∷ 0 ∷ 0 ∷ 0 ∷ 0 ∷ 0 ∷ 0 ∷ [])
      ∷ [])
    ≡ record {
      frames =
          record { stream = stdout; payload = 104 ∷ 105 ∷ [] }
          ∷ record { stream = stderr; payload = [] }
          ∷ [];
      ends = none;
    }
unfolding demux
two_frames = refl

cut_short : demux ((1 ∷ 0 ∷ []) ∷ []) ≡ record { frames = []; ends = some (truncated 2) }
unfolding demux
cut_short = refl

abbrev hello : Frame
hello = record { stream = stdout; payload = 104 ∷ 105 ∷ [] }

demux-encode_all_example :
    demux ((1 ∷ 0 ∷ []) ∷ (0 ∷ 0 ∷ 0 ∷ 0 ∷ 0 ∷ 2 ∷ 104 ∷ 105 ∷ []) ∷ [])
    ≡ record { frames = hello ∷ []; ends = none }
unfolding encode_all encode code_of
demux-encode_all_example =
    demux-encode_all (hello ∷ []) ((1 ∷ 0 ∷ []) ∷ (0 ∷ 0 ∷ 0 ∷ 0 ∷ 0 ∷ 2 ∷ 104 ∷ 105 ∷ []) ∷ [])
      (omega arith) refl

demux-flatten_example :
    demux ((9 ∷ []) ∷ (0 ∷ 0 ∷ 0 ∷ 0 ∷ 0 ∷ 0 ∷ 0 ∷ 7 ∷ []) ∷ [])
    ≡ demux ((9 ∷ 0 ∷ 0 ∷ 0 ∷ 0 ∷ 0 ∷ 0 ∷ 0 ∷ 7 ∷ []) ∷ [])
demux-flatten_example = demux-flatten ((9 ∷ []) ∷ (0 ∷ 0 ∷ 0 ∷ 0 ∷ 0 ∷ 0 ∷ 0 ∷ 7 ∷ []) ∷ [])
