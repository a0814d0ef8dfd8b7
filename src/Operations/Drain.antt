-- ===== src/Operations/Drain.antt =====
-- A transfer whose requests all succeed empties the queue.
use osmmini.Base.{
  ℕ, zero, suc, inl, inr, ◌≤◌, ◌≡◌, refl, ap, ◌∙◌, true, false, not, none, some, List, [], ◌∷◌,
  Text, arith, length, any, keep, Bool-cases, ok,
}
use osmmini.Operations.{
  Entry, holds, queue_limit, same_event, save_pending_operations, pending_operations, Session,
  Event, begin, answer, start, begin_from, begin_when, remove_sent, answer_head, step, run,
}
use osmmini.Operations.Queue.{NoRepeat, IsQueue, same_event_refl}
use osmmini.Operations.Calls.{with_ids-named}

abbrev pub replicate : ℕ → Event → List Event
replicate zero v = []
replicate (suc n) v = v ∷ replicate n v

-- The items in the order in which they were sent, the last one first, before `d`.
abbrev pub rev_onto : List Entry → List Entry → List Entry
rev_onto [] d = d
rev_onto (r ∷ l) d = rev_onto l (r ∷ d)

keep_all :
    (r : Entry) (l : List Entry)
    → any (λ i. same_event i r) l ≡ false
    → keep (λ i. not (same_event i r)) l ≡ l
keep_all r [] h = refl
keep_all r (x ∷ l) h = elim (Bool-cases (same_event x r)) [
  | inl e ↦ absurd (ground arith)
  | inr e ↦ rw (e, keep_all r l (ground arith)) refl
]

save_room :
    (q : List Entry) → length q ≤ queue_limit → save_pending_operations true q ≡ ok (holds q)
unfolding save_pending_operations
save_room q h = ground arith

abbrev under_way : List Entry → List Entry → Session
under_way l d = record { stored = holds l; sending = some l; delivered = d }

abbrev pub idle : List Entry → List Entry → Session
idle l d = record { stored = holds l; sending = none; delivered = d }

answer-head :
    (r : Entry) (l d : List Entry)
    → NoRepeat (r ∷ l)
    → length (r ∷ l) ≤ queue_limit
    → step (under_way (r ∷ l) d) (answer true true) ≡ under_way l (r ∷ d)
unfolding step answer_head remove_sent pending_operations
answer-head r l d h n =
    rw (same_event_refl r, keep_all r l h.0, save_room l (omega (arith, n))) refl

drain :
    (l d : List Entry)
    → NoRepeat l
    → length l ≤ queue_limit
    → run (under_way l d) (replicate (suc (length l)) (answer true true)) ≡ idle [] (rev_onto l d)
unfolding run
drain [] d h n = unfold step answer_head in refl
drain (r ∷ l) d h n =
    ap (λ s. run s (replicate (suc (length l)) (answer true true))) (answer-head r l d h n)
    ∙ drain l (r ∷ d) h.1 (omega (arith, n))

begin-idle :
    (q d : List Entry) (fresh : ℕ → Text)
    → IsQueue q
    → step (idle q d) (begin true fresh true) ≡ under_way q d
unfolding step begin_when begin_from start pending_operations
begin-idle [] d fresh h = refl
begin-idle (r ∷ q) d fresh h =
    rw (with_ids-named fresh (r ∷ q) h.named, save_room (r ∷ q) h.bounded) refl

-- A transfer of a queue in order that begins on line, with every request and every write succeeding and
-- nothing coming in between, ends with an empty queue and each item sent once, in the order of the
-- queue.
pub run-replicate :
    (q d : List Entry) (fresh : ℕ → Text)
    → IsQueue q
    → run (idle q d) (begin true fresh true ∷ replicate (suc (length q)) (answer true true))
      ≡ idle [] (rev_onto q d)
unfolding run
run-replicate q d fresh h =
    ap (λ s. run s (replicate (suc (length q)) (answer true true))) (begin-idle q d fresh h)
    ∙ drain q d h.distinct h.bounded
