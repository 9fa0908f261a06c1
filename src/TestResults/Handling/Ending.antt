-- ===== src/TestResults/Handling/Ending.antt =====
-- A run whose payload comes in chunks ends.
use zero_proof.TestResults.Chunks.{
  ignored, pending, complete, Outcome, receive_chunk, deliveries, with_outcome, Arrival,
  ResultChunkBuffer,
}
use zero_proof.Base.Dict.{get, remove, get-set}
use zero_proof.TestResults.Handling.{
  State, unparsed, with_run, handle_test_results, parsed_payload, TestRun, found_run,
  handle_arrivals, unparsed_run, go_on, with_buffers, final_result, handle_chunked_test_results,
  TestResult, finished_run,
}
use zero_proof.Rules.Value.{Value}
use zero_proof.TestResults.Handling.Finishing.{
  IsFinished, finished_run-IsFinished, after_update-test_runs, handle_chunked_test_results-Finishes,
}
use zero_proof.Base.Text.{is_empty}
use zero_proof.TestResults.Handling.Buffers.{handle_chunked_test_results-buffers}
use zero_proof.TestResults.Chunks.Deliveries.{SendsParts, has_come, deliveries-reassembled}
use zero_proof.TestResults.Json.{build_structured_results_json}
use zero_proof.Base.{
  ℕ, ◌<◌, String, ◌≡◌, refl, ◌∙◌, ◌⊎◌, inl, inr, true, false, Option, none, some, List, [], ◌∷◌,
  arith, str_eq, eq_iff, eq_refl, Bool-cases, length, any,
}

-- A run that has ended, or that runs and is no mesh test
IsLive : TestRun → Type 0
IsLive run =
    IsFinished run ⊎ ((run.status ≡ "RUNNING") × (str_eq run.test_type "device_mesh" ≡ false))

-- The row of a test that has ended
HasEnded : String → State → Type 0
HasEnded t s = (run : TestRun) × (get s.test_runs t ≡ some run) × IsFinished run

Lives : String → State → Type 0
Lives t s = (run : TestRun) × (get s.test_runs t ≡ some run) × IsLive run

with_run-HasEnded :
    (t : String) (run : TestRun) (s : State) → IsFinished run → HasEnded t (with_run t run s)
unfolding HasEnded with_run
with_run-HasEnded t run s h = (run, get-set s.test_runs t t run ∙ (rw (eq_refl t) refl), h)

idle-IsFinished :
    (run : TestRun) → IsLive run → str_eq run.status "RUNNING" ≡ false → IsFinished run
unfolding IsLive
idle-IsFinished run (inl finished) idle = finished
idle-IsFinished run (inr (running, other)) idle = absurd (let h = rw running at idle in cc)

mesh-IsFinished :
    (run : TestRun) → IsLive run → str_eq run.test_type "device_mesh" ≡ true → IsFinished run
unfolding IsLive
mesh-IsFinished run (inl finished) mesh = finished
mesh-IsFinished run (inr (running, other)) mesh = absurd (ground (arith, other, mesh))

unparsed-HasEnded :
    (now : ℕ) (t : String) (b : ResultChunkBuffer) (s : State)
    → Lives t s
    → HasEnded t (unparsed now t b s (get s.test_runs t))
unfolding Lives HasEnded unparsed unparsed_run
unparsed-HasEnded now t b s (run, found, live) = elim (Bool-cases (str_eq run.status "RUNNING")) [
  | inl running ↦
      rw (found, running) (with_run-HasEnded t (unparsed_run now b run) s (inr refl, refl, refl))
  | inr idle ↦ rw (found, idle) (run, found, idle-IsFinished run live idle)
]

handle_test_results-HasEnded :
    (now : ℕ) (device_id t : String) (result : TestResult) (s : State)
    → Lives t s
    → HasEnded t (handle_test_results now device_id t result s)
unfolding Lives HasEnded handle_test_results found_run with_buffers
handle_test_results-HasEnded now device_id t result s (run, found, live) =
    elim (Bool-cases (str_eq run.test_type "device_mesh")) [
      | inl mesh ↦ rw (found, mesh) (run, found, mesh-IsFinished run live mesh)
      | inr other ↦
          rw
            (
              found,
              other,
              after_update-test_runs device_id (get s.devices device_id) t result
                  (build_structured_results_json run.results_json result.results result.transport)
                  (with_run t (finished_run now result run) (with_buffers (remove s.buffers t) s)),
            )
            (with_run-HasEnded t (finished_run now result run) (with_buffers (remove s.buffers t) s)
              (finished_run-IsFinished now result run))
    ]

parsed_payload-HasEnded :
    (now : ℕ) (device_id t : String) (b : ResultChunkBuffer) (s : State) (o : Option Value)
    → Lives t s
    → HasEnded t (parsed_payload now device_id t b s o)
unfolding parsed_payload
parsed_payload-HasEnded now device_id t b s none live = unparsed-HasEnded now t b s live
parsed_payload-HasEnded now device_id t b s (some v) live =
    handle_test_results-HasEnded now device_id t (final_result b v) s live

module _ (parse : String → Option Value) where
  -- An ended run stays so, and a live one lives.
  step-HasEnded :
      (a : Arrival) (s : State) (t : String)
      → HasEnded t s
      → HasEnded t (handle_chunked_test_results parse a s)
  unfolding HasEnded
  step-HasEnded a s t (run, found, ended) =
      elim (handle_chunked_test_results-Finishes parse a s t) [
        | inl same ↦ (run, same ∙ found, ended)
        | inr (own, after, now_found, finished) ↦ (after, now_found, finished)
      ]

  step-Lives :
      (a : Arrival) (s : State) (t : String)
      → Lives t s
      → Lives t (handle_chunked_test_results parse a s)
  unfolding Lives IsLive
  step-Lives a s t (run, found, live) = elim (handle_chunked_test_results-Finishes parse a s t) [
    | inl same ↦ (run, same ∙ found, live)
    | inr (own, after, now_found, finished) ↦ (after, now_found, inl finished)
  ]

  handle_arrivals-HasEnded :
      (arrivals : List Arrival) (s : State) (t : String)
      → HasEnded t s
      → HasEnded t (handle_arrivals parse arrivals s)
  unfolding handle_arrivals
  handle_arrivals-HasEnded [] s t h = h
  handle_arrivals-HasEnded (a ∷ later) s t h =
      handle_arrivals-HasEnded later (handle_chunked_test_results parse a s) t
        (step-HasEnded a s t h)

  go_on-HasEnded :
      (a : Arrival) (s : State) (o : Outcome) (t : String) (ds : List (String × String))
      → Lives t s
      → any (λ d. str_eq d.0 t) (with_outcome a.message.test_id o ds) ≡ true
      → HasEnded t (go_on parse a s o) ⊎ (any (λ d. str_eq d.0 t) ds ≡ true)
  unfolding go_on with_outcome
  go_on-HasEnded a s ignored t ds live h = inr h
  go_on-HasEnded a s pending t ds live h = inr h
  go_on-HasEnded a s (complete payload b) t ds live h =
      elim (Bool-cases (str_eq a.message.test_id t)) [
        | inl own ↦
            let e = (eq_iff a.message.test_id t).0 own in
            inl (rw e (parsed_payload-HasEnded a.now a.device_id t b s (parse payload) live))
        | inr apart ↦ inr (rw apart at h)
      ]

  delivered-HasEnded :
      (arrivals : List Arrival) (s : State) (t : String)
      → Lives t s
      → any (λ d. str_eq d.0 t) (deliveries s.buffers arrivals) ≡ true
      → HasEnded t (handle_arrivals parse arrivals s)
  unfolding handle_arrivals deliveries handle_chunked_test_results with_buffers Lives HasEnded
  delivered-HasEnded [] s t live h = absurd (cc)
  delivered-HasEnded (a ∷ later) s t live h =
      let step = receive_chunk s.buffers a in
      let next = handle_chunked_test_results parse a s in
      elim (go_on-HasEnded a (with_buffers step.0 s) step.1 t (deliveries step.0 later) live h) [
        | inl ended ↦ handle_arrivals-HasEnded later next t ended
        | inr after ↦
            delivered-HasEnded later next t (step-Lives a s t live)
              (rw (handle_chunked_test_results-buffers parse a s) after)
      ]

  -- A running test that is no mesh test, has no buffer and whose payload has at least one part: where
  -- every chunk that comes for it is one of the parts and each part comes, in any order, as often as
  -- it comes and among the chunks of other tests, its run ends, completed or failed, with the time of
  -- its end, whether or not the payload can be parsed and its device is known. The arrivals are the
  -- only events here: stale buffers are not dropped between them.
  pub handle_arrivals-IsFinished :
      (ps : List String) (t : String) (s : State) (arrivals : List Arrival) (run : TestRun)
      → is_empty t ≡ false
      → 0 < length ps
      → get s.buffers t ≡ none
      → SendsParts t ps arrivals
      → ((i : ℕ) → i < length ps → has_come t arrivals i ≡ true)
      → get s.test_runs t ≡ some run
      → run.status ≡ "RUNNING"
      → str_eq run.test_type "device_mesh" ≡ false
      → (after : TestRun) × (get (handle_arrivals parse arrivals s).test_runs t ≡ some after)
        × IsFinished after
  unfolding HasEnded Lives IsLive
  handle_arrivals-IsFinished ps t s arrivals run named some_part fresh sends come found running
        other =
      delivered-HasEnded arrivals s t (run, found, inr (running, other))
        ((deliveries-reassembled ps t s.buffers arrivals named some_part fresh sends).0.0 come)
