-- ===== src/Operations/Calls.antt =====
-- What each operation of the offline queue in cmd/web/app.js leaves in the storage.
use osmmini.Base.{
  subst, ℕ, suc, ◌≤◌, ◌≡◌, refl, sym, ap, ◌∙◌, Bool, true, false, not, List, [], ◌∷◌, ◌++◌, Text,
  length, arith, any, all, keep, In, inl, inr, In-append_left, Bool-cases, any-In, leb, ltb,
  if◌then◌else◌, is_nil, ok, err, ◌>>=◌, Ensures, Ensures-bind, Ensures-of_eq, Ensures-eq,
  &&-eq-true,
}
use osmmini.Operations.{
  Entry, Stored, missing, damaged, holds, queue_limit, pending_operations, save_pending_operations,
  same_event, has_id, append_entry, queue_operation, with_ids, start, remove_sent, no_event_id,
}
use osmmini.Operations.Queue.{entries, IsQueue, Includes, all-snoc, NoRepeat-snoc, same_event_refl}

-- Where `pendingOperations` succeeds, it gives what is stored.
pending-Ensures : (st : Stored) → Ensures (λ q. q ≡ entries st) (pending_operations st)
unfolding pending_operations
pending-Ensures missing = refl
pending-Ensures damaged = tt
pending-Ensures (holds q) = refl

save-Ensures :
    (room : Bool) (q : List Entry)
    → Ensures (λ st. (st ≡ holds q) × (length q ≤ queue_limit)) (save_pending_operations room q)
unfolding save_pending_operations
save-Ensures room q = elim (Bool-cases (ltb queue_limit (length q))) [
  | inl e ↦ rw e tt
  | inr e ↦ rw e (elim (Bool-cases room) [ inl t ↦ rw t (refl, ground arith) | inr t ↦ rw t tt ])
]

-- What `queueOperation` leaves: an item that is queued stays, and the new one or one of its ID is
-- there.
abbrev pub Queued : Stored → Entry → Stored → Type 0
Queued st r next =
    (IsQueue (entries st) → IsQueue (entries next))
    × Includes (entries next) (entries st)
    × (any (λ i. same_event i r) (entries next) ≡ true)

append_entry-Ensures :
    (room : Bool) (r : Entry) (q : List Entry) (st : Stored)
    → q ≡ entries st
    → has_id r.client_event_id ≡ true
    → any (λ i. same_event i r) q ≡ false
    → Ensures (Queued st r) (append_entry room r q)
unfolding append_entry
append_entry-Ensures room r q st e h k = elim (Bool-cases (leb queue_limit (length q))) [
  | inl t ↦ rw t tt
  | inr t ↦ rw t (Ensures-of_eq _ _ appended)
]
  where
    last : (l : List Entry) → In r (l ++ r ∷ [])
    last [] = inl refl
    last (x ∷ l) = inr (last l)

    appended :
        (next : Stored) → save_pending_operations room (q ++ r ∷ []) ≡ ok next → Queued st r next
    appended next p =
        let (f, n) = Ensures-eq _ _ (save-Ensures room (q ++ r ∷ [])) p in
        rw f (
          λ v. record {
            distinct = NoRepeat-snoc q r (rw e v.distinct) k;
            named = all-snoc (λ i. has_id i.client_event_id) q r (rw e v.named) h;
            bounded = n;
          },
          λ x m. In-append_left x q (r ∷ []) (rw e m),
          any-In (λ i. same_event i r) r (q ++ r ∷ []) (last q) (same_event_refl r),
        )

-- The item that `queueOperation` accepts is in the queue, or one of its ID is.
pub queue_operation-Ensures :
    (room : Bool) (r : Entry) (st : Stored) → Ensures (Queued st r) (queue_operation room r st)
unfolding queue_operation
queue_operation-Ensures room r st =
    Ensures-bind _ _ (pending_operations st) _ (pending-Ensures st) (λ q e. after q e)
  where
    after :
        (q : List Entry)
        → q ≡ entries st
        → Ensures (Queued st r) (
            if not (has_id r.client_event_id)
            then err no_event_id
            else if any (λ i. same_event i r) q
            then ok st
            else append_entry room r q)
    after q e = elim (Bool-cases (has_id r.client_event_id)) [
      | inr t ↦ rw t tt
      | inl t ↦ elim (Bool-cases (any (λ i. same_event i r) q)) [
        | inl u ↦ rw (t, u) (λ v. v, λ x m. m, rw (← e) u)
        | inr u ↦ rw (t, u) (append_entry-Ensures room r q st e t u)
      ]
    ]

-- Items with an ID keep it.
pub with_ids-named :
    (fresh : ℕ → Text) (q : List Entry)
    → all (λ i. has_id i.client_event_id) q ≡ true
    → with_ids fresh q ≡ q
with_ids-named fresh [] h = refl
with_ids-named fresh (r ∷ q) h =
    let (a, b) = &&-eq-true (has_id r.client_event_id) _ h in
    rw (a, with_ids-named (λ n. fresh (suc n)) q b) refl

abbrev pub Started : Stored → Stored × List Entry → Type 0
Started st x = (entries x.0 ≡ entries st) × (x.1 ≡ entries st)

-- The transfer starts with what is queued, and the queue stays.
pub start-Ensures :
    (fresh : ℕ → Text) (room : Bool) (st : Stored)
    → IsQueue (entries st)
    → Ensures (Started st) (start fresh room st)
unfolding start
start-Ensures fresh room st h =
    Ensures-bind (λ q. q ≡ entries st) (Started st) (pending_operations st) _ (pending-Ensures st)
      after
  where
    after :
        (q : List Entry)
        → q ≡ entries st
        → Ensures (Started st) (
            if is_nil q
            then ok (st, [])
            else save_pending_operations room (with_ids fresh q) >>= λ next.
                ok (next, with_ids fresh q))
    after [] e = (refl, e)
    after (r ∷ q) e =
        Ensures-bind
          (λ (x : Stored).
            (x ≡ holds (with_ids fresh (r ∷ q))) × (length (with_ids fresh (r ∷ q)) ≤ queue_limit))
          _ (save_pending_operations room (with_ids fresh (r ∷ q))) _
          (save-Ensures room (with_ids fresh (r ∷ q)))
          λ next p.
            let same : with_ids fresh (r ∷ q) ≡ entries st =
              with_ids-named fresh (r ∷ q)
                (subst (λ l. all (λ i. has_id i.client_event_id) l ≡ true) (sym e) h.named)
              ∙ e in
            let f : entries next ≡ with_ids fresh (r ∷ q) = ap entries p.0 in (f ∙ same, same)

-- What taking a sent item out leaves: the queue, without that item only.
abbrev pub Removed : Stored → Entry → Stored → Type 0
Removed st r next = (entries next ≡ keep (λ i. not (same_event i r)) (entries st))

pub remove_sent-Ensures :
    (room : Bool) (r : Entry) (st : Stored) → Ensures (Removed st r) (remove_sent room r st)
unfolding remove_sent
remove_sent-Ensures room r st =
    Ensures-bind (λ q. q ≡ entries st) (Removed st r) (pending_operations st) _ (pending-Ensures st)
      λ q e.
        Ensures-of_eq (Removed st r)
          (save_pending_operations room (keep (λ i. not (same_event i r)) q))
          (λ next p.
            let (f, n) =
              Ensures-eq _ _ (save-Ensures room (keep (λ i. not (same_event i r)) q)) p in
            rw (f, e) refl)
