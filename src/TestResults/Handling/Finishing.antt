-- ===== src/TestResults/Handling/Finishing.antt =====
-- What the handlers leave of a test run.
use zero_proof.TestResults.Chunks.{ignored, pending, complete}
use zero_proof.Base.{
  ℕ, String, ◌≡◌, refl, ◌∙◌, ◌⊎◌, inl, inr, true, Option, none, some, str_eq, Bool-cases, is_some,
}
use zero_proof.TestResults.Handling.{
  unparsed, finished_run, TestRun, after_update, State, found_run, with_run, parsed_payload,
  handle_test_results, unparsed_run, with_buffers, TestResult, go_on, handle_chunked_test_results,
  final_result,
}
use zero_proof.Rules.Value.{Value, Fields}
use zero_proof.TestResults.Chunks.{ResultChunkBuffer, Arrival, Outcome, receive_chunk, complete}
use zero_proof.TestResults.Json.{build_structured_results_json}
use zero_proof.Base.Dict.{get, get-set, remove}

-- The row of a run that has ended
abbrev pub IsFinished : TestRun → Type 0
IsFinished run =
    ((run.status ≡ "COMPLETED") ⊎ (run.status ≡ "FAILED"))
    × (run.progress ≡ 100)
    × (is_some run.completed_at ≡ true)

-- One test's row may have changed, and only to that of a run that has ended.
abbrev pub Finishes : String → State → State → Type 0
Finishes test_id s s' =
    (t : String)
    → (get s'.test_runs t ≡ get s.test_runs t)
      ⊎ ((str_eq test_id t ≡ true)
          × (run : TestRun) × (get s'.test_runs t ≡ some run)
          × IsFinished run)

pub with_run-Finishes :
    (test_id : String) (run : TestRun) (s : State)
    → IsFinished run
    → Finishes test_id s (with_run test_id run s)
unfolding with_run
with_run-Finishes test_id run s h t = elim (Bool-cases (str_eq test_id t)) [
  | inl same ↦ inr (same, run, get-set s.test_runs test_id t run ∙ (rw same refl), h)
  | inr apart ↦ inl (get-set s.test_runs test_id t run ∙ (rw apart refl))
]

pub finished_run-IsFinished :
    (now : ℕ) (result : TestResult) (run : TestRun) → IsFinished (finished_run now result run)
unfolding finished_run
finished_run-IsFinished now result run = elim (Bool-cases result.success) [
  | inl good ↦ rw good (inl refl, refl, refl)
  | inr bad ↦ rw bad (inr refl, refl, refl)
]

pub after_update-test_runs :
    (device_id : String) (o : Option String) (test_id : String) (result : TestResult)
    (structured : Fields) (s : State)
    → (after_update device_id o test_id result structured s).test_runs ≡ s.test_runs
unfolding after_update
after_update-test_runs device_id none test_id result structured s = refl
after_update-test_runs device_id (some status) test_id result structured s = refl

found_run-Finishes :
    (now : ℕ) (device_id test_id : String) (result : TestResult) (s : State) (o : Option TestRun)
    → Finishes test_id s (found_run now device_id test_id result s o)
unfolding found_run
found_run-Finishes now device_id test_id result s none t = inl refl
found_run-Finishes now device_id test_id result s (some run) t =
    elim (Bool-cases (str_eq run.test_type "device_mesh")) [
      | inl mesh ↦ rw mesh (inl refl)
      | inr other ↦
          rw
            (
              other,
              after_update-test_runs device_id (get s.devices device_id) test_id result
                  (build_structured_results_json run.results_json result.results result.transport)
                  (with_run test_id (finished_run now result run) s),
            )
            (with_run-Finishes test_id (finished_run now result run) s
              (finished_run-IsFinished now result run) t)
    ]

handle_test_results-Finishes :
    (now : ℕ) (device_id test_id : String) (result : TestResult) (s : State)
    → Finishes test_id s (handle_test_results now device_id test_id result s)
unfolding handle_test_results with_buffers
handle_test_results-Finishes now device_id test_id result s =
    found_run-Finishes now device_id test_id result (with_buffers (remove s.buffers test_id) s)
      (get s.test_runs test_id)

unparsed-Finishes :
    (now : ℕ) (test_id : String) (b : ResultChunkBuffer) (s : State) (o : Option TestRun)
    → Finishes test_id s (unparsed now test_id b s o)
unfolding unparsed unparsed_run
unparsed-Finishes now test_id b s none t = inl refl
unparsed-Finishes now test_id b s (some run) t = elim (Bool-cases (str_eq run.status "RUNNING")) [
  | inl running ↦
      rw running (with_run-Finishes test_id (unparsed_run now b run) s (inr refl, refl, refl) t)
  | inr ended ↦ rw ended (inl refl)
]

parsed_payload-Finishes :
    (now : ℕ) (device_id test_id : String) (b : ResultChunkBuffer) (s : State) (o : Option Value)
    → Finishes test_id s (parsed_payload now device_id test_id b s o)
unfolding parsed_payload
parsed_payload-Finishes now device_id test_id b s none =
    unparsed-Finishes now test_id b s (get s.test_runs test_id)
parsed_payload-Finishes now device_id test_id b s (some v) =
    handle_test_results-Finishes now device_id test_id (final_result b v) s

module _ (parse : String → Option Value) where
  go_on-Finishes :
      (a : Arrival) (s : State) (o : Outcome) → Finishes a.message.test_id s (go_on parse a s o)
  unfolding go_on
  go_on-Finishes a s ignored t = inl refl
  go_on-Finishes a s pending t = inl refl
  go_on-Finishes a s (complete payload b) t =
      parsed_payload-Finishes a.now a.device_id a.message.test_id b s (parse payload) t

  -- A chunk, whatever it holds and whether or not the payload can be parsed, leaves every row of the
  -- test runs as it is, but for that of its own test, which it may only turn into the row of an ended
  -- run: completed or failed, at 100 percent, with the time of its end.
  pub handle_chunked_test_results-Finishes :
      (a : Arrival) (s : State)
      → Finishes a.message.test_id s (handle_chunked_test_results parse a s)
  unfolding handle_chunked_test_results with_buffers
  handle_chunked_test_results-Finishes a s =
      let step = receive_chunk s.buffers a in go_on-Finishes a (with_buffers step.0 s) step.1
