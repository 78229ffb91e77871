-- ===== src/Sync/Chunks/Tests.antt =====
-- Tests of the chunked application, and its theorems at concrete inputs.
use omacalendar.Base.{
  ℕ, zero, suc, String, ◌≡◌, refl, false, none, List, [], ◌∷◌, map, arith, length, All,
}
use omacalendar.Sync.Chunks.{Request, Position, Chunk, slice, Turn, End, is_completed, run}
use omacalendar.Sync.Chunks.Parts.{HoldsRest, run-HoldsRest}
use omacalendar.Sync.Chunks.Turns.{
  IsSmall, IsFinishedOnce, IsCalm, run-IsFinishedOnce, run-IsCompleted,
}

abbrev numbers : ℕ → List String
numbers zero = []
numbers (suc n) = "event" ∷ numbers n

-- Forty events, and one deletion.
abbrev request : Request String String
request = record {
  events = numbers 40;
  deleted_remote_ids = "gone" ∷ [];
  pruned_remote_ids = [];
  resources = "event" ∷ [];
}

abbrev at_start : Position
at_start = record { event_index = 0; deleted_index = 0; pruned_index = 0; resource_index = 0 }

abbrev calm : Turn
calm = record { cancelled = false; refusal = none; cancelled_by_listener = false }

abbrev calm_turns : ℕ → List Turn
calm_turns zero = []
calm_turns (suc n) = calm ∷ calm_turns n

abbrev calm_run : List (Chunk String String) × End
calm_run = run (λ e. e) (λ r. r) request at_start (calm_turns 2)

two_chunks : map (λ c. length c.events) calm_run.0 ≡ 32 ∷ 8 ∷ []
unfolding run slice
two_chunks = refl

run-HoldsRest_example : HoldsRest (λ e. e) (λ r. r) request at_start calm_run.0
unfolding run
run-HoldsRest_example = run-HoldsRest (λ e. e) (λ r. r) request at_start (calm_turns 2) refl

run-IsFinishedOnce_example :
    All IsSmall calm_run.0 × (calm_run.1 ≡ is_completed → IsFinishedOnce calm_run.0)
run-IsFinishedOnce_example = run-IsFinishedOnce (λ e. e) (λ r. r) request at_start (calm_turns 2)

calm_turns-IsCalm : (n : ℕ) → All IsCalm (calm_turns n)
calm_turns-IsCalm zero = tt
calm_turns-IsCalm (suc n) = ((refl, refl, refl), calm_turns-IsCalm n)

run-IsCompleted_example : (run (λ e. e) (λ r. r) request at_start (calm_turns 50)).1 ≡ is_completed
run-IsCompleted_example =
    run-IsCompleted (λ e. e) (λ r. r) request at_start (calm_turns 50)
      (omega arith, omega arith, omega arith, omega arith) (omega arith) (calm_turns-IsCalm 50)
