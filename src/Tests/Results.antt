-- ===== src/Tests/Results.antt =====
-- The results of a test in two chunks, and in messages.
use zero_proof.Base.{
  ℕ, zero, suc, ◌<◌, String, ◌≡◌, refl, ◌↔◌, true, false, Option, none, some, List, [], ◌∷◌, arith,
  str_eq, if◌then◌else◌, All, any,
}
use zero_proof.Base.Dict.{Dict, get, set}
use zero_proof.Rules.Value.{
  Value, Fields, Items, undefined, obj, arr, num, str, own, element, no_fields, no_items, field_at,
  has_own,
}
use zero_proof.TestResults.Json.{
  merge_json, merge_test_run_results_json, extract_command_results, extract_evidence,
  extract_verdicts, as_json_object, stored_over,
}
use zero_proof.TestResults.Json.Merging.{merge_test_run_results_json-again, IsPlain}
use zero_proof.TestResults.Json.Messages.{Message, stored_after, latest_in, stored_after-latest}
use zero_proof.TestResults.Chunks.{
  ResultChunkBuffer, Arrival, receive_chunk, deliveries, cleanup_stale_chunk_buffers,
}
use zero_proof.TestResults.Chunks.Receiving.{IsOpen, receive_chunk-IsOpen}
use zero_proof.TestResults.Chunks.Slots.{whole}
use zero_proof.TestResults.Chunks.Deliveries.{SendsParts, has_come, deliveries-reassembled}
use zero_proof.TestResults.Handling.{TestRun, State, handle_arrivals, handle_chunked_test_results}
use zero_proof.TestResults.Handling.Finishing.{
  IsFinished, Finishes, handle_chunked_test_results-Finishes,
}
use zero_proof.Rules.Targets.{set_field}
use zero_proof.TestResults.Handling.Ending.{handle_arrivals-IsFinished}

abbrev chunk : String → ℕ → String → Arrival
chunk t i payload = record {
  now = 5000;
  device_id = "esp32-1";
  message = record {
    test_id = t;
    chunk_index = some i;
    chunk_count = some 2;
    payload = some payload;
    success = none;
    error = none;
    duration = none;
  };
}

-- The second chunk comes first, and twice; another test sends in between.
abbrev arrivals : List Arrival
arrivals =
    chunk "t1" 1 "sults\":[]}"
    ∷ chunk "t2" 0 "[1,"
    ∷ chunk "t1" 1 "sults\":[]}"
    ∷ chunk "t1" 0 "{\"re"
    ∷ []

abbrev parts : List String
parts = "{\"re" ∷ "sults\":[]}" ∷ []

abbrev no_buffers : Dict ResultChunkBuffer
no_buffers = []

both_come : (i : ℕ) → i < 2 → has_come "t1" arrivals i ≡ true
both_come zero h = refl
both_come (suc zero) h = refl
both_come (suc (suc i)) h = absurd (omega arith)

sends_parts : SendsParts "t1" parts arrivals
sends_parts = (
  (λ own. (refl, (1, "sults\":[]}", refl, refl, refl))),
  (
    (λ own. absurd (cc)),
    (
      (λ own. (refl, (1, "sults\":[]}", refl, refl, refl))),
      ((λ own. (refl, (0, "{\"re", refl, refl, refl))), tt),
    ),
  ),
)

deliveries-reassembled_example :
    (((i : ℕ) → i < 2 → has_come "t1" arrivals i ≡ true)
      ↔ (any (λ d. str_eq d.0 "t1") (deliveries no_buffers arrivals) ≡ true))
    × All (λ d. str_eq d.0 "t1" ≡ true → d.1 ≡ whole parts) (deliveries no_buffers arrivals)
unfolding get
deliveries-reassembled_example =
    deliveries-reassembled parts "t1" no_buffers arrivals refl (omega arith) refl sends_parts

receive_chunk-IsOpen_example :
    All (λ e. IsOpen e.1) (receive_chunk no_buffers (chunk "t1" 1 "b")).0
    × All (λ e. IsOpen e.1) (cleanup_stale_chunk_buffers 90000 no_buffers)
receive_chunk-IsOpen_example = receive_chunk-IsOpen no_buffers (chunk "t1" 1 "b") 90000 tt

abbrev running : TestRun
running = record {
  status = "RUNNING";
  test_type = "network";
  started_at = 1000;
  progress = 80;
  completed_at = none;
  duration = none;
  results_json = undefined;
  error_message = none;
}

abbrev before : State
before = record {
  buffers = no_buffers;
  test_runs = ("t1", running) ∷ ("t2", running) ∷ [];
  devices = ("esp32-1", "TESTING") ∷ [];
  processed = [];
  broadcasts = [];
}

abbrev parse_empty : String → Option Value
parse_empty s =
    if str_eq s "{\"results\":[]}"
    then some (obj (own "results" (arr no_items) no_fields))
    else none

handle_arrivals-IsFinished_example :
    (after : TestRun) × (get (handle_arrivals parse_empty arrivals before).test_runs "t1"
      ≡ some after)
    × IsFinished after
unfolding get
handle_arrivals-IsFinished_example =
    handle_arrivals-IsFinished parse_empty parts "t1" before arrivals running refl (omega arith)
      refl sends_parts both_come refl refl refl

handle_chunked_test_results-Finishes_example :
    Finishes "t1" before (handle_chunked_test_results parse_empty (chunk "t1" 0 "{") before)
handle_chunked_test_results-Finishes_example =
    handle_chunked_test_results-Finishes parse_empty (chunk "t1" 0 "{") before

abbrev patch : Fields
patch = own "metadata" (obj (own "mesh" (num 1) no_fields)) no_fields

abbrev saved : Fields
saved =
    own "metadata" (obj (own "site" (str "a") no_fields)) (own "results" (arr no_items) no_fields)

abbrev rows : Dict Value
rows = ("t1", obj saved) ∷ []

abbrev merged : Dict Value
merged =
    (
      "t1",
      obj (
          own "metadata" (obj (own "site" (str "a") (own "mesh" (num 1) no_fields)))
            (own "results" (arr no_items) no_fields)),
    )
    ∷ []

stored_once : merge_test_run_results_json rows "t1" patch ≡ some merged
unfolding merge_test_run_results_json stored_over merge_json get set field_at as_json_object
    set_field
stored_once = refl

merge_test_run_results_json-again_example :
    (merge_test_run_results_json merged "t1" patch ≡ some merged)
    × ((other : String) → str_eq "t1" other ≡ false → get merged other ≡ get rows other)
unfolding has_own IsPlain
merge_test_run_results_json-again_example =
    merge_test_run_results_json-again rows merged "t1" patch (refl, ((refl, (tt, tt)), tt))
      stored_once

abbrev with_results : Message
with_results = record {
  payload = obj (own "results" (arr (element (num 7) no_items)) no_fields);
  transport = none;
}

abbrev without_results : Message
without_results = record {
  payload = obj (own "results" (arr no_items) no_fields);
  transport = some (own "truncated" (num 1) no_fields);
}

stored_after-latest_example :
    let stored = as_json_object (stored_after undefined (with_results ∷ without_results ∷ [])) in
    let from : (Fields → Items) → Items =
      λ extract. latest_in extract undefined (with_results ∷ without_results ∷ []) in
    (field_at stored "commandResults" ≡ arr (from extract_command_results))
    × (field_at stored "results" ≡ arr (from extract_command_results))
    × (field_at stored "evidence" ≡ arr (from extract_evidence))
    × (field_at stored "verdicts" ≡ arr (from extract_verdicts))
stored_after-latest_example = stored_after-latest (without_results ∷ []) undefined with_results
