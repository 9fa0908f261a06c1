-- ===== src/TestResults/Handling/Buffers.antt =====
-- The buffers after a message: those that receiving its chunk leaves.
use zero_proof.TestResults.Chunks.{
  ignored, pending, complete, Outcome, settle, accept, receive_chunk, ResultChunkBuffer, Arrival,
  write_chunk, kept_or_new,
}
use zero_proof.Base.Dict.{get, set, remove, remove-remove, Dict}
use zero_proof.TestResults.Handling.{
  handle_test_results, unparsed, handle_chunked_test_results, found_run, go_on, with_run,
  parsed_payload, with_buffers, State, TestRun, after_update, final_result, TestResult,
}
use zero_proof.Rules.Value.{Value}
use zero_proof.Base.Text.{is_empty}
use zero_proof.Base.{
  ℕ, String, ◌≡◌, refl, inl, inr, ◌||◌, Option, none, some, str_eq, leb, ◌==◌, Bool-cases,
  Option-cases, length,
}

-- Going on with a payload deletes a buffer that is gone already.
IsGone : Outcome → Dict ResultChunkBuffer → String → Type 0
IsGone ignored buffers t = Unit
IsGone pending buffers t = Unit
IsGone (complete payload b) buffers t = remove buffers t ≡ buffers

-- The buffers after a payload are those that its last chunk leaves.
handle_test_results-buffers :
    (now : ℕ) (device_id t : String) (result : TestResult) (s : State)
    → remove s.buffers t ≡ s.buffers
    → (handle_test_results now device_id t result s).buffers ≡ s.buffers
unfolding handle_test_results found_run with_buffers with_run after_update
handle_test_results-buffers now device_id t result s gone =
    elim (Option-cases (get s.test_runs t)) [
      | inl missing ↦ rw missing gone
      | inr (run, found) ↦ elim (Bool-cases (str_eq run.test_type "device_mesh")) [
        | inl mesh ↦ rw (found, mesh) gone
        | inr other ↦ elim (Option-cases (get s.devices device_id)) [
          | inl no_device ↦ rw (found, other, no_device) gone
          | inr (status, device) ↦ rw (found, other, device) gone
        ]
      ]
    ]

unparsed-buffers :
    (now : ℕ) (t : String) (b : ResultChunkBuffer) (s : State) (o : Option TestRun)
    → (unparsed now t b s o).buffers ≡ s.buffers
unfolding unparsed with_run
unparsed-buffers now t b s none = refl
unparsed-buffers now t b s (some run) = elim (Bool-cases (str_eq run.status "RUNNING")) [
  | inl running ↦ rw running refl
  | inr idle ↦ rw idle refl
]

settle-IsGone :
    (buffers : Dict ResultChunkBuffer) (t : String) (b : ResultChunkBuffer)
    → IsGone (settle buffers t b).1 (settle buffers t b).0 t
unfolding settle IsGone
settle-IsGone buffers t b = elim (Bool-cases (length b.received_chunks == b.chunk_count)) [
  | inl full ↦ rw full (remove-remove (set buffers t b) t)
  | inr waiting ↦ rw waiting tt
]

accept-IsGone :
    (buffers : Dict ResultChunkBuffer) (a : Arrival) (i n : Option ℕ) (p : Option String)
    → IsGone (accept buffers a i n p).1 (accept buffers a i n p).0 a.message.test_id
unfolding accept IsGone
accept-IsGone buffers a none n p = tt
accept-IsGone buffers a (some i) none p = tt
accept-IsGone buffers a (some i) (some n) none = tt
accept-IsGone buffers a (some i) (some n) (some p) = elim (Bool-cases (n == 0 || leb n i)) [
  | inl bad ↦ rw bad tt
  | inr good ↦ rw good (
      settle-IsGone buffers a.message.test_id (
        write_chunk (kept_or_new a.device_id n a.now (get buffers a.message.test_id)) a.message i p
          a.now))
]

receive_chunk-IsGone :
    (buffers : Dict ResultChunkBuffer) (a : Arrival)
    → IsGone (receive_chunk buffers a).1 (receive_chunk buffers a).0 a.message.test_id
unfolding receive_chunk IsGone
receive_chunk-IsGone buffers a = elim (Bool-cases (is_empty a.message.test_id)) [
  | inl empty ↦ rw empty tt
  | inr named ↦
      rw named
        (accept-IsGone buffers a a.message.chunk_index a.message.chunk_count a.message.payload)
]

module _ (parse : String → Option Value) where
  go_on-buffers :
      (a : Arrival) (s : State) (o : Outcome)
      → IsGone o s.buffers a.message.test_id
      → (go_on parse a s o).buffers ≡ s.buffers
  unfolding go_on parsed_payload IsGone
  go_on-buffers a s ignored gone = refl
  go_on-buffers a s pending gone = refl
  go_on-buffers a s (complete payload b) gone = elim (Option-cases (parse payload)) [
    | inl broken ↦
        rw broken (unparsed-buffers a.now a.message.test_id b s (get s.test_runs a.message.test_id))
    | inr (v, parsed) ↦
        rw parsed (
          handle_test_results-buffers a.now a.device_id a.message.test_id (final_result b v) s gone)
  ]

  pub handle_chunked_test_results-buffers :
      (a : Arrival) (s : State)
      → (handle_chunked_test_results parse a s).buffers ≡ (receive_chunk s.buffers a).0
  unfolding handle_chunked_test_results with_buffers
  handle_chunked_test_results-buffers a s =
      let step = receive_chunk s.buffers a in
      go_on-buffers a (with_buffers step.0 s) step.1 (receive_chunk-IsGone s.buffers a)
