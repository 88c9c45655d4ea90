-- ===== src/Transport/Preview.antt =====
-- `dry_run`: what a plan keeps back and what it lets through.
use mathlib.Core.Path.{subst}
use aisb.Prelude.{
  String, ◌≡◌, refl, sym, ap, ◌∙◌, ◌⊎◌, inl, inr, true, false, some, List, [], ◌∷◌, ◌++◌, ◌==◌,
  append-nil, append_assoc, arith, Bool-cases, All, All-append, has_text,
}
use aisb.Prelude.Results.{Result, ok, err}
use aisb.Transport.{
  Kind, json, raw, stream, head, Request, Planned, request, note, Transport, Answer, Prog, done,
  raise, send, take_note, ask_planning, Daemon, dry_id, is_kept, planning, add_note, record_if,
  intercept, intercept_kind, send_unless, exchange, go_on, run, dry_run, planned_of,
}

module _ {B : Type 0} where
  -- a request that changes nothing, and that a made-up id has no part in
  unfoldable pub IsRead : Kind × Request B → Type 0
  IsRead (head, r) = Unit {0}
  IsRead (k, r) = (r.method == "GET" ≡ true) × (has_text dry_id r.path ≡ false)

  -- a note, or a request that is not such a read
  unfoldable pub IsHeld : Planned B → Type 0
  IsHeld (note n) = Unit {0}
  IsHeld (request r) = (r.method == "GET" ≡ false) ⊎ (has_text dry_id r.path ≡ true)

  not_kept :
      (r : Request B)
      → is_kept r ≡ false
      → (r.method == "GET" ≡ true) × (has_text dry_id r.path ≡ false)
  unfolding is_kept
  not_kept r h = (ground (arith, h), ground (arith, h))

  IsRead-kept : (k : Kind) (r : Request B) → is_kept r ≡ false → IsRead (k, r)
  unfolding IsRead
  IsRead-kept json r h = not_kept r h
  IsRead-kept raw r h = not_kept r h
  IsRead-kept stream r h = not_kept r h
  IsRead-kept head r h = tt

  IsHeld-kept : (r : Request B) → is_kept r ≡ true → IsHeld (request r)
  unfolding IsHeld is_kept
  IsHeld-kept r h = elim (Bool-cases (r.method == "GET")) [
    | inl g ↦ inr (ground (arith, g, h))
    | inr g ↦ inl g
  ]

  planned_of-some :
      (t : Transport B) (planned : List (Planned B))
      → t.plan ≡ some planned
      → planned_of t ≡ planned
  planned_of-some t planned h = rw h

module _ {B A E : Type 0} (d : Daemon B A E) where
  -- what one request does to a transport that plans: it is sent, being a read, or it is planned
  unfoldable pub IsPlanned : List (Planned B) → List (Kind × Request B) → Transport B → Type 0
  IsPlanned planned sent t =
      (more : List (Planned B)) × (news : List (Kind × Request B)) × (t.plan
        ≡ some (planned ++ more))
      × (t.sent ≡ news ++ sent)
      × All IsHeld more
      × All IsRead news

  send_unless-IsPlanned :
      (k : Kind) (r : Request B) (t : Transport B) (planned : List (Planned B))
      → t.plan ≡ some planned
      → IsPlanned planned t.sent (send_unless d k r (record_if (is_kept r) r planned t)).1
  unfolding IsPlanned
  send_unless-IsPlanned k r t planned h = elim (Bool-cases (is_kept r)) [
    | inl kept ↦ rw kept (request r ∷ [], [], refl, refl, (IsHeld-kept r kept, tt), tt)
    | inr read ↦ rw read (
      [],
      (k, r) ∷ [],
      h ∙ ap some (sym (append-nil planned)),
      refl,
      tt,
      (IsRead-kept k r read, tt),
    )
  ]

  intercept-planned :
      (r : Request B) (t : Transport B) (planned : List (Planned B))
      → t.plan ≡ some planned
      → intercept r t ≡ record_if (is_kept r) r planned t
  unfolding intercept
  intercept-planned r t planned h = rw h

  intercepted-IsPlanned :
      (k : Kind) (r : Request B) (t : Transport B) (planned : List (Planned B))
      → t.plan ≡ some planned
      → IsPlanned planned t.sent (send_unless d k r (intercept r t)).1
  intercepted-IsPlanned k r t planned h =
      rw (intercept-planned r t planned h) (send_unless-IsPlanned k r t planned h)

  pub exchange-IsPlanned :
      (k : Kind) (r : Request B) (t : Transport B) (planned : List (Planned B))
      → t.plan ≡ some planned
      → IsPlanned planned t.sent (exchange d k r t).1
  unfolding exchange intercept_kind IsPlanned IsRead
  exchange-IsPlanned json r t planned h = intercepted-IsPlanned json r t planned h
  exchange-IsPlanned raw r t planned h = intercepted-IsPlanned raw r t planned h
  exchange-IsPlanned stream r t planned h = intercepted-IsPlanned stream r t planned h
  exchange-IsPlanned head r t planned h =
      ([], (head, r) ∷ [], h ∙ ap some (sym (append-nil planned)), refl, tt, (tt, tt))

  -- A request that a dry run does not keep back is sent.
  pub exchange_sent :
      (r : Request B) (t : Transport B) (planned : List (Planned B))
      → t.plan ≡ some planned
      → is_kept r ≡ false
      → exchange d json r t ≡ send_unless d json r (false, t)
  unfolding exchange intercept_kind
  exchange_sent r t planned h kept =
      ap (send_unless d json r)
        (intercept-planned r t planned h ∙ ap (λ b. record_if b r planned t) kept)

  IsPlanned-none :
      (t : Transport B) (planned : List (Planned B))
      → t.plan ≡ some planned
      → IsPlanned planned t.sent t
  unfolding IsPlanned
  IsPlanned-none t planned h = ([], [], h ∙ ap some (sym (append-nil planned)), refl, tt, tt)

  add_note-IsPlanned :
      (n : String) (t : Transport B) (planned : List (Planned B))
      → t.plan ≡ some planned
      → IsPlanned planned t.sent (add_note n t)
  unfolding IsPlanned add_note IsHeld
  add_note-IsPlanned n t planned h = rw h (note n ∷ [], [], refl, refl, (tt, tt), tt)

  IsPlanned-trans :
      (planned : List (Planned B)) (sent : List (Kind × Request B)) (t u : Transport B)
      → IsPlanned planned sent t
      → ((now : List (Planned B)) → t.plan ≡ some now → IsPlanned now t.sent u)
      → IsPlanned planned sent u
  unfolding IsPlanned
  IsPlanned-trans planned sent t u (more, news, plan, sent_now, held, reads) next =
      let (more2, news2, plan2, sent2, held2, reads2) = next (planned ++ more) plan in
      (
        more ++ more2,
        news2 ++ news,
        plan2 ∙ ap some (append_assoc planned more more2),
        sent2 ∙ ap (λ x. news2 ++ x) sent_now ∙ sym (append_assoc news2 news sent),
        All-append IsHeld more more2 held held2,
        All-append IsRead news2 news reads2 reads,
      )

  go_on-IsPlanned :
      {R : Type 0} (planned : List (Planned B)) (sent : List (Kind × Request B))
      (f : Answer A → Transport B → Result E R × Transport B)
      (x : Result E (Answer A) × Transport B)
      → IsPlanned planned sent x.1
      → ((a : Answer A) (u : Transport B) (now : List (Planned B))
          → u.plan ≡ some now
          → IsPlanned now u.sent (f a u).1)
      → IsPlanned planned sent (go_on f x).1
  go_on-IsPlanned planned sent f (ok a, u) here next =
      IsPlanned-trans planned sent u (f a u).1 here (next a u)
  go_on-IsPlanned planned sent f (err e, u) here next = here

  run-IsPlanned :
      {R : Type 0} (p : Prog B A E R) (t : Transport B) (planned : List (Planned B))
      → t.plan ≡ some planned
      → IsPlanned planned t.sent (run d p t).1
  unfolding run
  run-IsPlanned (done r) t planned h = IsPlanned-none t planned h
  run-IsPlanned (raise e) t planned h = IsPlanned-none t planned h
  run-IsPlanned (send k r next) t planned h =
      go_on-IsPlanned planned t.sent (λ a. run d (next a)) (exchange d k r t)
        (exchange-IsPlanned k r t planned h) (λ a. run-IsPlanned (next a))
  run-IsPlanned (take_note n p) t planned h =
      IsPlanned-trans planned t.sent (add_note n t) (run d p (add_note n t)).1
        (add_note-IsPlanned n t planned h) (run-IsPlanned p (add_note n t))
  run-IsPlanned (ask_planning next) t planned h = run-IsPlanned (next (planning t)) t planned h

  -- Whatever an operation asks, and however it ends, a dry run sends the daemon nothing but reads
  -- (a HEAD, or a GET whose path has no made-up id), lists nothing but notes and requests that are
  -- not such reads, and leaves the transport with the plan that it had before.
  pub dry_run-only_reads :
      {R : Type 0} (p : Prog B A E R) (t : Transport B)
      → (news : List (Kind × Request B)) × ((dry_run d p t).2.sent ≡ news ++ t.sent)
        × All IsRead news
        × All IsHeld (dry_run d p t).1
        × ((dry_run d p t).2.plan ≡ t.plan)
  unfolding dry_run IsPlanned
  dry_run-only_reads p t =
      let (more, news, plan, sent, held, reads) =
        run-IsPlanned p (record t { plan = some [] }) [] refl in
      (
        news,
        sent,
        reads,
        subst (λ planned. All IsHeld planned)
            (sym (planned_of-some (run d p (record t { plan = some [] })).1 more plan)) held,
        refl,
      )
