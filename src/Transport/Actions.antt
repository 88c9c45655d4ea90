-- ===== src/Transport/Actions.antt =====
-- A function of an operation that asks a transport and may raise, as a function on the transport:
-- with it, an exception of a request can be caught.
use mathlib.Core.Path.{subst}
use aisb.Prelude.{String, ◌≡◌, refl, sym, none, some, List, [], ◌∷◌, ◌++◌, All, All-append}
use aisb.Prelude.Results.{Result, ok, err}
use aisb.Transport.{
  Kind, json, raw, stream, head, Request, Transport, Answer, Prog, done, raise, send, take_note,
  ask_planning, Daemon, exchange, intercept, intercept_kind, run, add_note, planning, go_on,
  Planned, note,
}
use aisb.Transport.Preview.{IsRead, IsPlanned, exchange-IsPlanned}

abbrev pub Action : (B E R : Type 0) → Type 0
Action B E R = Transport B → Result E R × Transport B

module _ {B E : Type 0} where
  abbrev pub after :
      {R S : Type 0} → Result E R × Transport B → (R → Action B E S) → Result E S × Transport B
  after (ok r, t) next = next r t
  after (err e, t) next = (err e, t)

  abbrev pub give : {R : Type 0} → R → Action B E R
  give r t = (ok r, t)

infixl 5 ◌▷◌
abbrev pub ◌▷◌ : {B E R S : Type 0} → Action B E R → (R → Action B E S) → Action B E S
(first ▷ next) t = after (first t) next

-- What a run of two actions that returns says of each.
pub after-eq-ok :
    {B E R S : Type 0} (first : Result E R × Transport B) (next : R → Action B E S) {s : S}
    {u : Transport B}
    → after first next ≡ (ok s, u)
    → (r : R) × (mid : Transport B) × (first ≡ (ok r, mid)) × (next r mid ≡ (ok s, u))
after-eq-ok (ok r, mid) next h = (r, mid, refl, h)
after-eq-ok (err x, mid) next h = cc

-- What `give` returns.
pub give-eq-ok :
    {B E R : Type 0} {r s : R} {t u : Transport B}
    → ◌≡◌ {A = Result E R × Transport B} (ok r, t) (ok s, u)
    → (r ≡ s) × (t ≡ u)
give-eq-ok h = (cc, cc)

-- What an action keeps of a transport.
abbrev pub Keeps : {B E R : Type 0} → (Transport B → Type 0) → Action B E R → Type 0
Keeps {B = B} I f = (t : Transport B) → I t → I (f t).1

-- Outside a dry run.
abbrev pub IsReal : {B : Type 0} → Transport B → Type 0
IsReal t = t.plan ≡ none

-- In a dry run that has only read.
abbrev pub IsDry : {B : Type 0} → Transport B → Type 0
IsDry {B = B} t = ((planned : List (Planned B)) × (t.plan ≡ some planned)) × All IsRead t.sent

module _ {B A E : Type 0} (d : Daemon B A E) where
  -- What every request and every note keep.
  pub record IsKept (I : Transport B → Type 0) : Type 0 where
    pub by_request : (k : Kind) (r : Request B) (t : Transport B) → I t → I (exchange d k r t).1
    pub by_note : (n : String) (t : Transport B) → I t → I (add_note n t)

  module _ (I : Transport B → Type 0) (kept : IsKept I) where
    going :
        {R : Type 0} (next : Answer A → Transport B → Result E R × Transport B)
        → ((a : Answer A) (mid : Transport B) → I mid → I (next a mid).1)
        → (first : Result E (Answer A) × Transport B) → I first.1
        → I (go_on next first).1
    going next each (ok a, mid) h = each a mid h
    going next each (err e, mid) h = h

    -- An operation keeps it, too.
    pub run-Keeps : {R : Type 0} (p : Prog B A E R) (t : Transport B) → I t → I (run d p t).1
    unfolding run
    run-Keeps (done r) t h = h
    run-Keeps (raise e) t h = h
    run-Keeps (send k r next) t h =
        going _ (λ a mid. run-Keeps (next a) mid) (exchange d k r t) (kept.by_request k r t h)
    run-Keeps (take_note n p) t h = run-Keeps p (add_note n t) (kept.by_note n t h)
    run-Keeps (ask_planning next) t h = run-Keeps (next (planning t)) t h

  pub IsReal-kept : IsKept IsReal
  unfolding exchange intercept_kind intercept add_note
  IsReal-kept = record { by_request = λ k r t h. by_kind k r t h; by_note = λ n t h. rw h refl }
    where
      by_kind :
          (k : Kind) (r : Request B) (t : Transport B)
          → t.plan ≡ none
          → (exchange d k r t).1.plan ≡ none
      by_kind json r t h = rw h refl
      by_kind raw r t h = rw h refl
      by_kind stream r t h = rw h refl
      by_kind head r t h = h

  pub IsDry-kept : IsKept IsDry
  unfolding IsPlanned add_note
  IsDry-kept = record {
    by_request = λ k r t h.
        let (more, news, plan, sent, held, reads) = exchange-IsPlanned d k r t h.0.0 h.0.1 in
        (
          (h.0.0 ++ more, plan),
          subst (All IsRead) (sym sent) (All-append IsRead news t.sent reads h.1),
        );
    by_note = λ n t h. rw h.0.1 ((h.0.0 ++ (note n ∷ []), refl), h.1);
  }

module _ {B E R S : Type 0} (I : Transport B → Type 0) where
  after_keeps :
      (first : Result E R × Transport B) (next : R → Action B E S)
      → I first.1
      → ((r : R) → Keeps I (next r))
      → I (after first next).1
  after_keeps (ok r, mid) next h keeps = keeps r mid h
  after_keeps (err e, mid) next h keeps = h

  pub ▷-Keeps :
      (first : Action B E R) (next : R → Action B E S)
      → Keeps I first
      → ((r : R) → Keeps I (next r))
      → Keeps I (first ▷ next)
  ▷-Keeps first next f keeps t h = after_keeps (first t) next (f t h) keeps
