-- ===== src/Shared/Tests.antt =====
-- A guarded call and its replay.
use atlas_commerce.Prelude.{ℕ, suc, ◌≡◌, refl, true, false, [], ◌∷◌}
use atlas_commerce.Shared.Idempotency.{Store, Round, run}
use atlas_commerce.Shared.Replay.{run_replays}
use atlas_commerce.Shared.Tx.{Action, ok}

-- The function counts its calls.
abbrev counts : ℕ → Action ℕ ℕ
counts answer s = (ok answer, suc s)

abbrev empty : Store ℕ
empty = record { results = []; locks = [] }

abbrev filled : Store ℕ
filled = record { results = (3, 7) ∷ []; locks = [] }

abbrev round : ℕ → Round ℕ ℕ
round t = record { token = t; pauses = [] }

run_runs : run 3 (counts 7) (round 1) [] (empty, 0) ≡ (ok (7, false), (filled, 1))
unfolding run
run_runs = refl

run_replays_example : run 3 (counts 8) (round 2) [] (filled, 1) ≡ (ok (7, true), (filled, 1))
run_replays_example =
    run_replays 3 (counts 7) (counts 8) (round 1) (round 2) [] [] 7 false (empty, 0) (filled, 1)
      run_runs

-- Another process holds the lock, and leaves its result in the second pause.
abbrev held : Store ℕ
held = record { results = []; locks = (3, 9) ∷ [] }

abbrev waits : Round ℕ ℕ
waits = record { token = 1; pauses = (λ w. w) ∷ (λ w. (filled, 5)) ∷ [] }

run_waiting : run 3 (counts 8) waits [] (held, 0) ≡ (ok (7, true), (filled, 5))
unfolding run
run_waiting = refl
