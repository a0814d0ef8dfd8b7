-- ===== src/Operations/Transfer.antt =====
-- The transfer of the offline queue, `flushPendingOperations` of cmd/web/app.js, with new items coming
-- in between: what is queued stays queued until it was sent.
use osmmini.Base.{
  ℕ, ◌≡◌, refl, subst, Bool, true, false, not, Option, none, some, List, [], ◌∷◌, Text, keep, In,
  inl, inr, ◌⊎◌, In-keep_of, Bool-cases, Result, ok, err, Ensures, Ensures-of_eq, Ensures-eq,
  any-In,
}
use osmmini.Operations.{
  Refusal, Entry, Stored, same_event, queue_operation, Session, Event, enqueue, begin, answer,
  begin_from, begin_when, remove_sent, answer_head, step, run,
}
use osmmini.Operations.Queue.{
  entries, NoRepeat, IsQueue, Includes, IsQueue-keep, or_else-Ensures, the_one,
}
use osmmini.Operations.Calls.{
  queue_operation-Ensures, start-Ensures, Removed, Started, remove_sent-Ensures,
}

-- The items that are still to be sent are queued, none twice.
abbrev pub InQueue : Option (List Entry) → List Entry → Type 0
InQueue none q = Unit
InQueue (some l) q = NoRepeat l × Includes q l

pub record IsSession (s : Session) : Type 0 where
  pub queue : IsQueue (entries s.stored)
  pub waiting : InQueue s.sending (entries s.stored)

-- An item is queued or was sent.
abbrev pub Kept : Session → Entry → Type 0
Kept s e = In e (entries s.stored) ⊎ In e s.delivered

InQueue-grow :
    (o : Option (List Entry)) (q u : List Entry) → Includes u q → InQueue o q → InQueue o u
InQueue-grow none q u h i = tt
InQueue-grow (some l) q u h i = (i.0, λ e m. h e (i.1 e m))

-- What `step` promises.
abbrev Good : Session → Session → Type 0
Good s t = IsSession t × ((e : Entry) → Kept s e → Kept t e)

Good-refl : (s : Session) → IsSession s → Good s s
Good-refl s h = (h, λ e k. k)

enqueue-Good :
    (s : Session) (room : Bool) (r : Entry) → IsSession s → Good s (step s (enqueue room r))
unfolding step
enqueue-Good s room r h =
    or_else-Ensures (λ st. Good s (record s { stored = st })) s.stored
      (queue_operation room r s.stored) (Ensures-of_eq _ _ grown) (Good-refl s h)
  where
    grown :
        (st : Stored) → queue_operation room r s.stored ≡ ok st → Good s (record s { stored = st })
    grown st p =
        let (v, i, _) = Ensures-eq _ _ (queue_operation-Ensures room r s.stored) p in
        (
          record {
            queue = v h.queue;
            waiting = InQueue-grow s.sending (entries s.stored) (entries st) i h.waiting;
          },
          λ e k. elim k [ inl m ↦ inl (i e m) | inr m ↦ inr m ],
        )

begin_from-Good :
    (s : Session) (r : Result Refusal (Stored × List Entry))
    → IsSession s
    → Ensures (Started s.stored) r
    → Good s (begin_from s r)
unfolding begin_from
begin_from-Good s (err e) h p = Good-refl s h
begin_from-Good s (ok (st, l)) h (p, q) = (
  record { queue = rw p h.queue; waiting = rw (p, q) (h.queue.distinct, λ e m. m) },
  λ e k. elim k [ inl m ↦ inl (rw p m) | inr m ↦ inr m ],
)

begin_when-Good :
    (o : Option (List Entry)) (may_send : Bool) (fresh : ℕ → Text) (room : Bool) (s : Session)
    → IsSession s
    → Good s (begin_when o may_send fresh room s)
unfolding begin_when
begin_when-Good (some l) may_send fresh room s h = Good-refl s h
begin_when-Good none false fresh room s h = Good-refl s h
begin_when-Good none true fresh room s h =
    begin_from-Good s _ h (start-Ensures fresh room s.stored h.queue)

-- The loop goes on to the next item.
skip-Good :
    (s : Session) (r : Entry) (rest : List Entry)
    → IsSession s
    → s.sending ≡ some (r ∷ rest)
    → Good s (record s { sending = some rest })
skip-Good s r rest h p =
    let w : InQueue (some (r ∷ rest)) (entries s.stored) =
      subst (λ o. InQueue o (entries s.stored)) p h.waiting in
    (record { queue = h.queue; waiting = (w.0.1, λ e m. w.1 e (inr m)) }, λ e k. k)

sent-Good :
    (s : Session) (room : Bool) (r : Entry) (rest : List Entry)
    → IsSession s
    → s.sending ≡ some (r ∷ rest)
    → Good s (answer_head true room s (some (r ∷ rest)))
unfolding answer_head
sent-Good s room r rest h p =
    or_else-Ensures
      (λ st. Good s (record s { stored = st; sending = some rest; delivered = r ∷ s.delivered }))
      s.stored (remove_sent room r s.stored) (Ensures-of_eq _ _ taken)
      (let (i, k) = skip-Good s r rest h p in
        (
          record { queue = i.queue; waiting = i.waiting },
          λ e m. elim (k e m) [ inl n ↦ inl n | inr n ↦ inr (inr n) ],
        ))
  where
    w : InQueue (some (r ∷ rest)) (entries s.stored)
    w = subst (λ o. InQueue o (entries s.stored)) p h.waiting

    other : Entry → Bool
    other i = not (same_event i r)

    -- An item of the queue is the one sent, or stays.
    stays : (e : Entry) → In e (entries s.stored) → (e ≡ r) ⊎ In e (keep other (entries s.stored))
    stays e m = elim (Bool-cases (same_event e r)) [
      | inl t ↦ inl (the_one (entries s.stored) e r h.queue.distinct m (w.1 r (inl refl)) t)
      | inr t ↦ inr (In-keep_of other e (entries s.stored) m (rw t refl))
    ]

    differs : (e : Entry) → In e rest → other e ≡ true
    differs e m = elim (Bool-cases (same_event e r)) [
      | inl t ↦ cc (w.0.0, any-In (λ i. same_event i r) e rest m t)
      | inr t ↦ rw t refl
    ]

    taken :
        (st : Stored)
        → remove_sent room r s.stored ≡ ok st
        → Good s (record s { stored = st; sending = some rest; delivered = r ∷ s.delivered })
    taken st q =
        let f : entries st ≡ keep other (entries s.stored) =
          Ensures-eq (Removed s.stored r) (remove_sent room r s.stored)
            (remove_sent-Ensures room r s.stored) q in
        (
          record {
            queue = rw f (IsQueue-keep other (entries s.stored) h.queue);
            waiting = (
              w.0.1,
              λ e m. rw f (In-keep_of other e (entries s.stored) (w.1 e (inr m)) (differs e m)),
            );
          },
          λ e k. elim k [
            | inr m ↦ inr (inr m)
            | inl m ↦ elim (stays e m) [ inl u ↦ inr (inl u) | inr u ↦ inl (rw f u) ]
          ],
        )

answer_head-Good :
    (accepted room : Bool) (s : Session) (o : Option (List Entry))
    → IsSession s
    → s.sending ≡ o
    → Good s (answer_head accepted room s o)
unfolding answer_head
answer_head-Good accepted room s none h p = Good-refl s h
answer_head-Good accepted room s (some []) h p =
    (record { queue = h.queue; waiting = tt }, λ e k. k)
answer_head-Good true room s (some (r ∷ rest)) h p = sent-Good s room r rest h p
answer_head-Good false room s (some (r ∷ rest)) h p = skip-Good s r rest h p

step-Good : (s : Session) (v : Event) → IsSession s → Good s (step s v)
unfolding step
step-Good s (enqueue room r) h = enqueue-Good s room r h
step-Good s (begin may_send fresh room) h = begin_when-Good s.sending may_send fresh room s h
step-Good s (answer accepted room) h = answer_head-Good accepted room s s.sending h refl

-- However calls of the queue, transfers and their answers follow on each other, the queue stays in
-- order, if it is at the start: no event ID stands in it twice, every item has one, there are at most
-- 100, and what a running transfer has still to send is queued, none of it twice.
pub run-IsSession : (s : Session) (vs : List Event) → IsSession s → IsSession (run s vs)
unfolding run
run-IsSession s [] h = h
run-IsSession s (v ∷ vs) h = run-IsSession (step s v) vs (step-Good s v h).0

run-Good : (s : Session) (vs : List Event) (e : Entry) → IsSession s → Kept s e → Kept (run s vs) e
unfolding run
run-Good s [] e h k = k
run-Good s (v ∷ vs) e h k = let (i, f) = step-Good s v h in run-Good (step s v) vs e i (f e k)

-- From a state in which the queue is in order: however calls of the queue, transfers and their answers
-- follow on each other, and whether requests and the storage succeed or fail, an item that is queued
-- stays in the queue, as it is, until a request that sent it has succeeded.
pub run-Kept :
    (s : Session) (vs : List Event) (e : Entry)
    → IsSession s
    → In e (entries s.stored)
    → In e (entries (run s vs).stored) ⊎ In e (run s vs).delivered
run-Kept s vs e h m = run-Good s vs e h (inl m)
