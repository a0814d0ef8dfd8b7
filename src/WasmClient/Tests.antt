-- ===== src/WasmClient/Tests.antt =====
-- A run of cmd/wasm/client.mjs, and the theorems at it: two calls, one reply, and the end.
use osmmini.Base.{ℕ, ◌+◌, ◌≡◌, refl, true, none, List, [], ◌∷◌, ◌++◌, codes}
use osmmini.WasmClient.{
  resolved, rejected, Event, call, reply, dispose, close, close_if, settle, answer, open_call,
  open_if, step, run, fresh,
}
use osmmini.WasmClient.Settled.{count, calls, made, run-once, run-dispose}

abbrev talk : List Event
talk = call true [] ∷ call true [] ∷ reply 2 none (codes "route") ∷ []

run-talk : run fresh (talk ++ dispose ∷ []) ≡ record {
  pending = [];
  next_id = 2;
  closed = true;
  settled =
      record { call = 1; outcome = rejected (codes "WASM router is disposed") }
      ∷ record { call = 2; outcome = resolved (codes "route") }
      ∷ [];
}
unfolding run step close close_if open_call open_if answer settle
run-talk = refl

run-once_example :
    ((i : ℕ)
      → count i (run fresh talk).pending + count i (calls (run fresh talk).settled)
        ≡ made i (run fresh talk))
    × ((run fresh talk).closed ≡ true → (run fresh talk).pending ≡ [])
run-once_example = run-once talk

run-dispose_example :
    (run (step (run fresh talk) dispose) (reply 1 none [] ∷ []) ≡ step (run fresh talk) dispose)
    × ((step (run fresh talk) dispose).pending ≡ [])
    × ((i : ℕ)
        → count i (calls (step (run fresh talk) dispose).settled)
          ≡ made i (step (run fresh talk) dispose))
run-dispose_example = run-dispose talk (reply 1 none [] ∷ [])
