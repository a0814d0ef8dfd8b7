-- ===== src/WasmClient.antt =====
-- cmd/wasm/client.mjs: the calls that a page has open at the routing worker. The worker and its
-- messages belong to the platform, so an event says what arrives.
pub mod Settled
mod Tests
use osmmini.Base.{
  ℕ, suc, Bool, true, false, ◌&&◌, not, Option, none, some, List, [], ◌∷◌, ◌++◌, map, any, keep,
  Text, codes, ◌==◌, leb, if◌then◌else◌,
}

-- How a promise ended.
pub data Outcome : Type 0 where
  resolved : Text → Outcome
  rejected : Text → Outcome

pub record Settlement : Type 0 where
  pub call : ℕ
  pub outcome : Outcome

-- `pending` lists the keys of the map, in the order of their insertion. `settled` lists how the calls
-- ended, the last one first.
pub record Client : Type 0 where
  pub pending : List ℕ
  pub next_id : ℕ
  pub closed : Bool
  pub settled : List Settlement

pub data Event : Type 0 where
  call : Bool → Text → Event
  fatal : Text → Event
  reply : ℕ → Option Text → Text → Event
  failed : Text → Event
  dispose : Event

abbrev pub reject_all : Text → List ℕ → List Settlement
reject_all why ids = map (λ i. record { call = i; outcome = rejected why }) ids

pub close_if : Bool → Text → Client → Client
close_if true why s = s
close_if false why s = record {
  pending = [];
  next_id = s.next_id;
  closed = true;
  settled = reject_all why s.pending ++ s.settled;
}

-- `close`
pub close : Text → Client → Client
unfolding close_if
close why s = close_if s.closed why s

-- `if(data.error)`
abbrev pub outcome_of : Option Text → Text → Outcome
outcome_of none result = resolved result
outcome_of (some []) result = resolved result
outcome_of (some (c ∷ e)) result = rejected (c ∷ e)

pub settle : ℕ → Outcome → Client → Client
settle i o s = record s {
  pending = keep (λ j. not (j == i)) s.pending;
  settled = record { call = i; outcome = o } ∷ s.settled;
}

-- The handler of the worker's messages, for a reply.
pub answer : ℕ → Outcome → Client → Client
unfolding settle
answer i o s = if any (λ j. j == i) s.pending then settle i o s else s

pub open_if : Bool → Bool → Text → Client → Client
unfolding settle
open_if true posted why s = s
open_if false posted why s =
    let opened = record s { pending = s.pending ++ suc s.next_id ∷ []; next_id = suc s.next_id } in
    if posted then opened else settle (suc s.next_id) (rejected why) opened

-- `call`, where `postMessage` succeeds or throws. A closed client refuses without an ID.
pub open_call : Bool → Text → Client → Client
unfolding open_if
open_call posted why s = open_if s.closed posted why s

-- `failed` stands for the events `abort`, `error` and `messageerror`.
unfoldable pub step : Client → Event → Client
unfolding close answer open_call
step s (call posted why) = open_call posted why s
step s (fatal []) = s
step s (fatal (c ∷ why)) = close (c ∷ why) s
step s (reply i error result) = answer i (outcome_of error result) s
step s (failed why) = close why s
step s dispose = close (codes "WASM router is disposed") s

unfoldable pub run : Client → List Event → Client
unfolding step
run s [] = s
run s (e ∷ es) = run (step s e) es

abbrev pub fresh : Client
fresh = record { pending = []; next_id = 0; closed = false; settled = [] }
