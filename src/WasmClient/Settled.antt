-- ===== src/WasmClient/Settled.antt =====
-- Every call is open or was settled, once.
use osmmini.Base.{
  codes, ℕ, suc, ◌+◌, ◌≤◌, ◌≡◌, refl, ap, ◌∙◌, Bool, true, false, ◌&&◌, not, List, [], ◌∷◌, ◌++◌,
  map, any, keep, Text, ◌==◌, leb, if◌then◌else◌, arith, Bool-cases, inl, inr,
}
use osmmini.WasmClient.{
  Outcome, rejected, Settlement, Client, Event, call, fatal, reply, failed, dispose, reject_all,
  close_if, close, open_if, outcome_of, settle, answer, open_call, step, run, fresh,
}

-- How often a call is listed.
abbrev pub count : ℕ → List ℕ → ℕ
count i [] = 0
count i (j ∷ l) = (if j == i then 1 else 0) + count i l

abbrev pub calls : List Settlement → List ℕ
calls l = map (λ (x : Settlement). x.call) l

-- Whether the call was made.
abbrev pub made : ℕ → Client → ℕ
made i s = if leb 1 i && leb i s.next_id then 1 else 0

pub record IsClient (s : Client) : Type 0 where
  pub once : (i : ℕ) → count i s.pending + count i (calls s.settled) ≡ made i s
  pub ended : s.closed ≡ true → s.pending ≡ []

count-append : (i : ℕ) (l m : List ℕ) → count i (l ++ m) ≡ count i l + count i m
count-append i [] m = omega arith
count-append i (j ∷ l) m = omega (arith, count-append i l m)

calls-reject_all :
    (why : Text) (l : List ℕ) (m : List Settlement) → calls (reject_all why l ++ m) ≡ l ++ calls m
calls-reject_all why [] m = refl
calls-reject_all why (i ∷ l) m = ap (λ r. i ∷ r) (calls-reject_all why l m)

count-keep :
    (i j : ℕ) (l : List ℕ)
    → count i (keep (λ x. not (x == j)) l) ≡ (if i == j then 0 else count i l)
count-keep i j [] = ground arith
count-keep i j (x ∷ l) = ground (arith, count-keep i j l)

any-count : (i : ℕ) (l : List ℕ) → any (λ j. j == i) l ≡ true → 1 ≤ count i l
any-count i [] h = cc
any-count i (x ∷ l) h = ground (arith, any-count i l)

close_if-IsClient :
    (b : Bool) (why : Text) (s : Client) → s.closed ≡ b → IsClient s → IsClient (close_if b why s)
unfolding close_if
close_if-IsClient true why s e h = h
close_if-IsClient false why s e h = record {
  once = λ i. omega (
    arith,
    h.once i,
    ap (count i) (calls-reject_all why s.pending s.settled),
    count-append i s.pending (calls s.settled),
  );
  ended = λ _. refl;
}

-- A call that is open is settled.
settle-IsClient :
    (i : ℕ) (o : Outcome) (s : Client)
    → s.closed ≡ false
    → 1 ≤ count i s.pending
    → IsClient s
    → IsClient (settle i o s)
unfolding settle
settle-IsClient i o s e m h = record {
  once = λ j. ground (arith, h.once j, count-keep j i s.pending);
  ended = λ q. cc;
}

abbrev opened : Client → Client
opened s = record s { pending = s.pending ++ suc s.next_id ∷ []; next_id = suc s.next_id }

opened-IsClient : (s : Client) → s.closed ≡ false → IsClient s → IsClient (opened s)
opened-IsClient s e h = record {
  once = λ i. ground (arith, h.once i, count-append i s.pending (suc s.next_id ∷ []));
  ended = λ q. cc;
}

open_if-IsClient :
    (b posted : Bool) (why : Text) (s : Client)
    → s.closed ≡ b
    → IsClient s
    → IsClient (open_if b posted why s)
unfolding open_if
open_if-IsClient true posted why s e h = h
open_if-IsClient false true why s e h = opened-IsClient s e h
open_if-IsClient false false why s e h =
    settle-IsClient (suc s.next_id) (rejected why) (opened s) e
      (ground (arith, count-append (suc s.next_id) s.pending (suc s.next_id ∷ [])))
      (opened-IsClient s e h)

answer-IsClient : (i : ℕ) (o : Outcome) (s : Client) → IsClient s → IsClient (answer i o s)
unfolding answer
answer-IsClient i o s h = elim (Bool-cases (any (λ j. j == i) s.pending)) [
  | inr e ↦ rw e h
  | inl e ↦ rw e (settle-IsClient i o s (running e) (any-count i s.pending e) h)
]
  where
    running : any (λ j. j == i) s.pending ≡ true → s.closed ≡ false
    running e = elim (Bool-cases s.closed) [
      | inl c ↦ cc (e, ap (any (λ j. j == i)) (h.ended c))
      | inr c ↦ c
    ]

step-IsClient : (s : Client) (v : Event) → IsClient s → IsClient (step s v)
unfolding step close open_call
step-IsClient s (call posted why) h = open_if-IsClient s.closed posted why s refl h
step-IsClient s (fatal []) h = h
step-IsClient s (fatal (c ∷ why)) h = close_if-IsClient s.closed (c ∷ why) s refl h
step-IsClient s (reply i error result) h = answer-IsClient i (outcome_of error result) s h
step-IsClient s (failed why) h = close_if-IsClient s.closed why s refl h
step-IsClient s dispose h = close_if-IsClient s.closed (codes "WASM router is disposed") s refl h

run-IsClient : (s : Client) (l : List Event) → IsClient s → IsClient (run s l)
unfolding run
run-IsClient s [] h = h
run-IsClient s (v ∷ l) h = run-IsClient (step s v) l (step-IsClient s v h)

fresh-IsClient : IsClient fresh
fresh-IsClient = record { once = λ i. ground arith; ended = λ _. refl }

-- Whatever arrives in whatever order, each call that was made is either open or settled, and that
-- once, and no other call is; and a closed client has no call open.
pub run-once :
    (l : List Event)
    → ((i : ℕ)
        → count i (run fresh l).pending + count i (calls (run fresh l).settled)
          ≡ made i (run fresh l))
      × ((run fresh l).closed ≡ true → (run fresh l).pending ≡ [])
run-once l = let h = run-IsClient fresh l fresh-IsClient in (h.once, h.ended)

-- A closed client does not change.
step_closed : (s : Client) (v : Event) → s.closed ≡ true → s.pending ≡ [] → step s v ≡ s
unfolding step close close_if open_call open_if answer
step_closed s (call posted why) e p = ap (λ b. open_if b posted why s) e
step_closed s (fatal []) e p = refl
step_closed s (fatal (c ∷ why)) e p = ap (λ b. close_if b (c ∷ why) s) e
step_closed s (reply i error result) e p =
    ap (λ l. if any (λ j. j == i) l then settle i (outcome_of error result) s else s) p
step_closed s (failed why) e p = ap (λ b. close_if b why s) e
step_closed s dispose e p = ap (λ b. close_if b (codes "WASM router is disposed") s) e

run_closed : (s : Client) (l : List Event) → s.closed ≡ true → s.pending ≡ [] → run s l ≡ s
unfolding run
run_closed s [] e p = refl
run_closed s (v ∷ l) e p = let q = step_closed s v e p in ap (λ c. run c l) q ∙ run_closed s l e p

close_if-closed :
    (b : Bool) (why : Text) (s : Client) → s.closed ≡ b → (close_if b why s).closed ≡ true
unfolding close_if
close_if-closed true why s e = e
close_if-closed false why s e = refl

dispose-closed : (s : Client) → (step s dispose).closed ≡ true
unfolding step close
dispose-closed s = close_if-closed s.closed (codes "WASM router is disposed") s refl

-- After `dispose`, nothing that arrives changes the client any more, no call is open, and each call
-- that was made has been settled once.
pub run-dispose :
    (l m : List Event)
    → (run (step (run fresh l) dispose) m ≡ step (run fresh l) dispose)
      × ((step (run fresh l) dispose).pending ≡ [])
      × ((i : ℕ)
          → count i (calls (step (run fresh l) dispose).settled)
            ≡ made i (step (run fresh l) dispose))
run-dispose l m =
    let h = step-IsClient (run fresh l) dispose (run-IsClient fresh l fresh-IsClient) in
    let e = dispose-closed (run fresh l) in
    (
      run_closed (step (run fresh l) dispose) m e (h.ended e),
      h.ended e,
      λ i. omega (arith, h.once i, ap (count i) (h.ended e)),
    )
