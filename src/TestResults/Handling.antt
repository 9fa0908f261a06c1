-- ===== src/TestResults/Handling.antt =====
-- mqtt/index.ts: handleTestResults, and the part of handleChunkedTestResults that goes on with a whole
-- payload. `JSON.parse` is a parameter. The record of the test runs, the devices, the calls of
-- processTestResults and the broadcasts are the state; log lines and the listeners of mesh tests are
-- left out. Of two times the later one is the end.
pub mod Finishing
pub mod Buffers
pub mod Ending
use zero_proof.Base.{
  ℕ, ◌-◌, ◌/◌, String, Bool, true, Option, none, some, List, [], ◌∷◌, ◌++◌, str_eq, if◌then◌else◌,
  or_else, or_option, length, all,
}
use zero_proof.Base.Dict.{Dict, get, set, remove}
use zero_proof.Rules.Value.{
  Value, Fields, undefined, bool, num, str, obj, arr, no_fields, no_items, own, field_at,
}
use zero_proof.TestResults.Json.{as_json_object, build_structured_results_json}
use zero_proof.Rules.Targets.{set_field}
use zero_proof.TestResults.Chunks.{
  ResultChunkBuffer, Arrival, Outcome, ignored, pending, complete, receive_chunk,
}

-- A row of the test runs, as far as the handlers read or write it
pub record TestRun : Type 0 where
  pub status : String
  pub test_type : String
  pub started_at : ℕ
  pub progress : ℕ
  pub completed_at : Option ℕ
  pub duration : Option ℕ
  pub results_json : Value
  pub error_message : Option String

-- `TestResult`, the test's and the device's name aside
pub record TestResult : Type 0 where
  pub success : Bool
  pub results : Value
  pub error : Option String
  pub duration : ℕ
  pub transport : Option Fields

pub record State : Type 0 where
  pub buffers : Dict ResultChunkBuffer
  pub test_runs : Dict TestRun
  pub devices : Dict String
  pub processed : List (String × Fields)
  pub broadcasts : List (String × Bool)

-- The data of the update; the error of a result without one is left as it is.
unfoldable pub finished_run : ℕ → TestResult → TestRun → TestRun
finished_run now result run = record {
  status = if result.success then "COMPLETED" else "FAILED";
  test_type = run.test_type;
  started_at = run.started_at;
  progress = 100;
  completed_at = some now;
  duration = some ((now - run.started_at) / 1000);
  results_json =
      obj (build_structured_results_json run.results_json result.results result.transport);
  error_message = or_option result.error run.error_message;
}

-- The steps behind the update of the run; a device that is not there is the error that ends them.
pub after_update : String → Option String → String → TestResult → Fields → State → State
after_update device_id none test_id result structured s = s
after_update device_id (some status) test_id result structured s = record {
  buffers = s.buffers;
  test_runs = s.test_runs;
  devices = set s.devices device_id "ONLINE";
  processed = s.processed ++ (test_id, structured) ∷ [];
  broadcasts = s.broadcasts ++ (test_id, result.success) ∷ [];
}

pub with_run : String → TestRun → State → State
with_run test_id run s = record {
  buffers = s.buffers;
  test_runs = set s.test_runs test_id run;
  devices = s.devices;
  processed = s.processed;
  broadcasts = s.broadcasts;
}

pub with_buffers : Dict ResultChunkBuffer → State → State
with_buffers buffers s = record {
  buffers = buffers;
  test_runs = s.test_runs;
  devices = s.devices;
  processed = s.processed;
  broadcasts = s.broadcasts;
}

-- A run that is not there cannot be updated, and that error ends the handler.
pub found_run : ℕ → String → String → TestResult → State → Option TestRun → State
unfolding after_update with_run
found_run now device_id test_id result s none = s
found_run now device_id test_id result s (some run) =
    let structured =
      build_structured_results_json run.results_json result.results result.transport in
    if str_eq run.test_type "device_mesh"
    then s
    else after_update device_id (get s.devices device_id) test_id result structured
        (with_run test_id (finished_run now result run) s)

-- `handleTestResults`
pub handle_test_results : ℕ → String → String → TestResult → State → State
unfolding found_run with_buffers
handle_test_results now device_id test_id result s =
    found_run now device_id test_id result (with_buffers (remove s.buffers test_id) s)
      (get s.test_runs test_id)

transport_fields : ResultChunkBuffer → Fields → Fields
transport_fields b fs =
    set_field (set_field (set_field fs "chunked" (bool true)) "chunkCount" (num b.chunk_count))
      "receivedChunks" (num (length b.received_chunks))

-- The result that is put together from the chunks
pub final_result : ResultChunkBuffer → Value → TestResult
unfolding transport_fields
final_result b parsed =
    let payload = as_json_object parsed in
    let transport = as_json_object (field_at payload "transport") in
    record {
      success = or_else b.success true;
      results = obj (set_field payload "transport" (obj (transport_fields b transport)));
      error = b.error;
      duration = or_else b.duration 0;
      transport = some (transport_fields b no_fields);
    }

failed_transport : ResultChunkBuffer → Fields
unfolding transport_fields
failed_transport b =
    set_field
      (set_field (set_field (transport_fields b no_fields) "truncated" (bool true)) "incomplete"
        (bool true))
      "reason" (str "Received all chunks but JSON parsing failed during assembly.")

pub unparsed_run : ℕ → ResultChunkBuffer → TestRun → TestRun
unfolding failed_transport
unparsed_run now b run = record {
  status = "FAILED";
  test_type = run.test_type;
  started_at = run.started_at;
  progress = 100;
  completed_at = some now;
  duration = run.duration;
  results_json = obj (
      build_structured_results_json run.results_json (obj (own "results" (arr no_items) no_fields))
        (some (failed_transport b)));
  error_message = some "Failed to parse chunked test results";
}

-- The `catch` of a payload that is no JSON
pub unparsed : ℕ → String → ResultChunkBuffer → State → Option TestRun → State
unfolding unparsed_run with_run
unparsed now test_id b s none = s
unparsed now test_id b s (some run) =
    if str_eq run.status "RUNNING" then with_run test_id (unparsed_run now b run) s else s

pub parsed_payload : ℕ → String → String → ResultChunkBuffer → State → Option Value → State
unfolding final_result unparsed
parsed_payload now device_id test_id b s (some v) =
    handle_test_results now device_id test_id (final_result b v) s
parsed_payload now device_id test_id b s none = unparsed now test_id b s (get s.test_runs test_id)

module _ (parse : String → Option Value) where
  pub go_on : Arrival → State → Outcome → State
  unfolding parsed_payload
  go_on a s ignored = s
  go_on a s pending = s
  go_on a s (complete payload b) =
      parsed_payload a.now a.device_id a.message.test_id b s (parse payload)

  -- `handleChunkedTestResults`
  pub handle_chunked_test_results : Arrival → State → State
  unfolding go_on with_buffers
  handle_chunked_test_results a s =
      let step = receive_chunk s.buffers a in go_on a (with_buffers step.0 s) step.1

  -- The chunks as they arrive
  pub handle_arrivals : List Arrival → State → State
  handle_arrivals [] s = s
  handle_arrivals (a ∷ later) s = handle_arrivals later (handle_chunked_test_results a s)
