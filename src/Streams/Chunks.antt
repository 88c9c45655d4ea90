-- ===== src/Streams/Chunks.antt =====
-- `demux` does not see where its input was cut into chunks.
use aisb.Prelude.{
  ℕ, zero, suc, ◌+◌, ◌<◌, ◌≤◌, ◌≡◌, refl, sym, ap, ◌∙◌, ◌⊎◌, inl, inr, ◌≢◌, none, some, List, [],
  ◌∷◌, ◌++◌, append-nil, append_assoc, arith, length, take, drop, flatten, get_or-append,
  take-append_le, drop-append_le, length-append, length-drop, le→not_ltb, lt→ltb, Option,
}
use aisb.Streams
use aisb.Streams.{
  Error, out_of_fuel, truncated, bad_stream, Frame, Stop, left, raised, Run, header_size, size_of,
  kind_of, stream_of, after_stream, yield_then, append_frames, proceed, finish, drain, drain_all,
  demux_from, demux,
}

-- Where a whole frame stands at the front of the buffer.
abbrev pub HasFrame : List ℕ → Type 0
HasFrame buf = (header_size ≤ length buf) × (header_size + size_of buf ≤ length buf)

abbrev pub HasPart : List ℕ → Type 0
HasPart buf = (length buf < header_size) ⊎ (length buf < header_size + size_of buf)

frame_or_part : (buf : List ℕ) → HasFrame buf ⊎ HasPart buf
frame_or_part buf = grind arith

abbrev pub waiting : List ℕ → Run Stop
waiting buf = record { frames = []; ends = left buf }

drain_part : (f : ℕ) (buf : List ℕ) → HasPart buf → drain (suc f) buf ≡ waiting buf
unfolding drain
drain_part f buf (inl h) = rw (lt→ltb _ _ h)
drain_part f buf (inr h) = ground (arith, lt→ltb _ _ h)

abbrev pub next : List ℕ → Run Stop → Run Stop
next buf rest =
    after_stream (kind_of buf) (stream_of (kind_of buf))
      (drop header_size (take (header_size + size_of buf) buf)) rest

drain_frame :
    (f : ℕ) (buf : List ℕ)
    → HasFrame buf
    → drain (suc f) buf ≡ next buf (drain f (drop (header_size + size_of buf) buf))
unfolding drain
drain_frame f buf (h, k) = rw (le→not_ltb _ _ h, le→not_ltb _ _ k)

shorter : (n : ℕ) (buf : List ℕ) → n ≤ length buf → length (drop n buf) + n ≡ length buf
shorter n buf h = omega (arith, length-drop n buf)

-- With enough fuel, more fuel changes nothing.
drain_fuel : (f g : ℕ) (buf : List ℕ) → length buf < f → length buf < g → drain f buf ≡ drain g buf
drain_fuel zero g buf h k = absurd (omega arith)
drain_fuel (suc f) zero buf h k = absurd (omega arith)
drain_fuel (suc f) (suc g) buf h k = elim (frame_or_part buf) [
  | inl w ↦
      rw (drain_frame f buf w, drain_frame g buf w)
        (ap (next buf) (
          drain_fuel f g (drop (header_size + size_of buf) buf) (omega (arith, shorter _ buf w.1))
            (omega (arith, shorter _ buf w.1))))
  | inr w ↦ drain_part f buf w ∙ sym (drain_part g buf w)
]

size_of-append :
    (buf more : List ℕ) → header_size ≤ length buf → size_of (buf ++ more) ≡ size_of buf
size_of-append buf more h = rw (
  get_or-append buf more 4 0 (omega arith),
  get_or-append buf more 5 0 (omega arith),
  get_or-append buf more 6 0 (omega arith),
  get_or-append buf more 7 0 (omega arith),
)

kind_of-append :
    (buf more : List ℕ) → header_size ≤ length buf → kind_of (buf ++ more) ≡ kind_of buf
kind_of-append buf more h = get_or-append buf more 0 0 (omega arith)

-- What has come so far, and then more.
abbrev resume : List ℕ → Run Stop → Run Stop
resume more r = elim r.ends [
  | left rest ↦ append_frames r.frames (drain_all (rest ++ more))
  | raised e ↦ r
]

resume-after_stream :
    (more : List ℕ) (k : ℕ) (s : Option Streams.Stream) (payload : List ℕ) (r : Run Stop)
    → after_stream k s payload (resume more r) ≡ resume more (after_stream k s payload r)
resume-after_stream more k none payload r = refl
resume-after_stream more k (some s) payload r = by_end r.ends refl
  where
    by_end :
        (e : Stop)
        → r.ends ≡ e
        → after_stream k (some s) payload (resume more r)
          ≡ resume more (after_stream k (some s) payload r)
    by_end (left rest) h = rw h
    by_end (raised x) h = rw h

HasFrame-append : (buf more : List ℕ) → HasFrame buf → HasFrame (buf ++ more)
HasFrame-append buf more (h, k) = (
  omega (arith, length-append buf more),
  rw (size_of-append buf more h) (omega (arith, length-append buf more)),
)

-- The front frame is the same when more bytes stand behind it.
next-append : (buf more : List ℕ) (r : Run Stop) → HasFrame buf → next (buf ++ more) r ≡ next buf r
next-append buf more r (h, k) = rw (
  size_of-append buf more h,
  kind_of-append buf more h,
  take-append_le (header_size + size_of buf) buf more k,
)

pub drain_all_part : (buf : List ℕ) → HasPart buf → drain_all buf ≡ waiting buf
unfolding drain_all
drain_all_part buf w = drain_part (length buf) buf w

pub drain_all_frame :
    (buf : List ℕ)
    → HasFrame buf
    → drain_all buf ≡ next buf (drain_all (drop (header_size + size_of buf) buf))
unfolding drain_all
drain_all_frame buf w =
    drain_frame (length buf) buf w
    ∙ ap (next buf) (
        drain_fuel (length buf) (suc (length (drop (header_size + size_of buf) buf)))
          (drop (header_size + size_of buf) buf) (omega (arith, shorter _ buf w.1)) (omega arith))

drain-append :
    (f : ℕ) (buf more : List ℕ)
    → length buf < f
    → drain_all (buf ++ more) ≡ resume more (drain f buf)
drain-append zero buf more h = absurd (omega arith)
drain-append (suc f) buf more h = elim (frame_or_part buf) [
  | inr w ↦ rw (drain_part f buf w)
  | inl w ↦
      let end = header_size + size_of buf in
      let rest = drop end buf in
      let small : length rest < f = omega (arith, shorter end buf w.1) in
      drain_all_frame (buf ++ more) (HasFrame-append buf more w)
      ∙ next-append buf more _ w
      ∙ ap (next buf) (
          rw (size_of-append buf more w.0, drop-append_le end buf more w.1)
            (drain-append f rest more small))
      ∙ resume-after_stream more (kind_of buf) (stream_of (kind_of buf)) _ (drain f rest)
      ∙ ap (resume more) (sym (drain_frame f buf w))
]

after_stream-left :
    (k : ℕ) (s : Option Streams.Stream) (payload : List ℕ) (r : Run Stop) (rest : List ℕ)
    → (after_stream k s payload r).ends ≡ left rest
    → r.ends ≡ left rest
after_stream-left k none payload r rest h = cc
after_stream-left k (some s) payload r rest h = h

after_stream-fueled :
    (k : ℕ) (s : Option Streams.Stream) (payload : List ℕ) (r : Run Stop)
    → r.ends ≢ raised out_of_fuel
    → (after_stream k s payload r).ends ≢ raised out_of_fuel
after_stream-fueled k none payload r h = λ e. cc
after_stream-fueled k (some s) payload r h = h

-- What the inner loop leaves, it would leave again.
drain-left :
    (f : ℕ) (buf rest : List ℕ) → (drain f buf).ends ≡ left rest → drain_all rest ≡ waiting rest
drain-left zero buf rest h = unfold drain in cc h
drain-left (suc f) buf rest h = elim (frame_or_part buf) [
  | inl w ↦ drain-left f (drop (header_size + size_of buf) buf) rest (
      after_stream-left (kind_of buf) (stream_of (kind_of buf)) _ _ rest
        (rw (drain_frame f buf w) at h))
  | inr w ↦
      let same : left buf ≡ left rest = rw (drain_part f buf w) at h in
      let here : buf ≡ rest = cc in rw here at (drain_all_part buf w)
]

-- Fuel never runs out.
drain_fueled : (f : ℕ) (buf : List ℕ) → length buf < f → (drain f buf).ends ≢ raised out_of_fuel
drain_fueled zero buf h = absurd (omega arith)
drain_fueled (suc f) buf h = elim (frame_or_part buf) [
  | inl w ↦ rw (drain_frame f buf w) (
      after_stream-fueled (kind_of buf) (stream_of (kind_of buf)) _ _
        (drain_fueled f (drop (header_size + size_of buf) buf) (omega (arith, shorter _ buf w.1))))
  | inr w ↦ rw (drain_part f buf w) (λ e. cc)
]

drain_all_fueled : (buf : List ℕ) → (drain_all buf).ends ≢ raised out_of_fuel
unfolding drain_all
drain_all_fueled buf = drain_fueled (suc (length buf)) buf (omega arith)

Stop-cases : (s : Stop) → ((b : List ℕ) × (s ≡ left b)) ⊎ ((e : Error) × (s ≡ raised e))
Stop-cases (left b) = inl (b, refl)
Stop-cases (raised e) = inr (e, refl)

proceed-append_frames :
    (fs : List Frame) (q : Run Stop) (k : List ℕ → Run (Option Error))
    → proceed (append_frames fs q) k ≡ append_frames fs (proceed q k)
proceed-append_frames fs q k = elim (Stop-cases q.ends) [
  | inl (b, e) ↦ rw (e, append_assoc)
  | inr (x, e) ↦ rw e
]

drain_all-append : (buf more : List ℕ) → drain_all (buf ++ more) ≡ resume more (drain_all buf)
drain_all-append buf more =
    drain-append (suc (length buf)) buf more (omega arith) ∙ unfold drain_all in refl

drain_all-left :
    (buf rest : List ℕ) → (drain_all buf).ends ≡ left rest → drain_all rest ≡ waiting rest
drain_all-left buf rest h = drain-left (suc (length buf)) buf rest (unfold drain_all in h)

demux_from-flatten :
    (buf : List ℕ) (chunks : List (List ℕ))
    → drain_all buf ≡ waiting buf
    → demux_from buf chunks ≡ proceed (drain_all (buf ++ flatten chunks)) finish
unfolding demux_from
demux_from-flatten buf [] h = rw (append-nil, h)
demux_from-flatten buf (c ∷ cs) h =
    rw (← append_assoc buf c (flatten cs), drain_all-append (buf ++ c) (flatten cs))
      elim (Stop-cases (drain_all (buf ++ c)).ends) [
        | inl (b, e) ↦ rw e (
            ap (append_frames (drain_all (buf ++ c)).frames)
              (demux_from-flatten b cs (drain_all-left (buf ++ c) b e))
            ∙ sym (
                proceed-append_frames (drain_all (buf ++ c)).frames (drain_all (b ++ flatten cs))
                  finish))
        | inr (x, e) ↦ rw e
      ]

nothing_yet : drain_all [] ≡ waiting []
nothing_yet = drain_all_part [] (inl (omega arith))

-- `demux` of any chunks is one run of the inner loop over all the bytes.
pub demux_lem :
    (chunks : List (List ℕ)) → demux chunks ≡ proceed (drain_all (flatten chunks)) finish
unfolding demux
demux_lem chunks = demux_from-flatten [] chunks nothing_yet

-- However its input is cut into chunks, `demux` yields the frames, and ends the way, that it does
-- when all the bytes come at once.
pub demux-flatten : (chunks : List (List ℕ)) → demux chunks ≡ demux (flatten chunks ∷ [])
demux-flatten chunks =
    rw (demux_lem chunks, demux_lem (flatten chunks ∷ []), append-nil (flatten chunks))

finish_fueled : (buf : List ℕ) → (finish buf).ends ≢ some out_of_fuel
finish_fueled [] = λ e. cc
finish_fueled (b ∷ bs) = λ e. cc

-- The loop ends: whatever bytes come, the fuel of the model does not run out.
pub demux-fueled : (chunks : List (List ℕ)) → (demux chunks).ends ≢ some out_of_fuel
demux-fueled chunks = rw (demux_lem chunks) elim (Stop-cases (drain_all (flatten chunks)).ends) [
  | inl (b, e) ↦ rw e (finish_fueled b)
  | inr (x, e) ↦ rw e (λ y. drain_all_fueled (flatten chunks) (e ∙ cc y))
]
