-- ===== src/TestResults/Chunks.antt =====
-- mqtt/index.ts: the buffers in which the chunks of a test's results are put together. Times are
-- milliseconds; indexes and counts are natural numbers, the negative and fractional ones are left out.
pub mod Slots
pub mod Receiving
pub mod Reassembly
pub mod Others
pub mod Deliveries
use zero_proof.Base.{
  ℕ, zero, suc, ◌-◌, String, append, Bool, ◌||◌, Option, none, some, List, [], ◌∷◌, ◌++◌, ltb, leb,
  ◌==◌, if◌then◌else◌, or_option, length, any,
}
use zero_proof.Base.Dict.{Dict, get, set, remove}
use zero_proof.Base.Text.{is_empty}

-- `ChunkedResultMessage`; a field of another type than the one the handler tests for is `none`.
pub record ChunkedResultMessage : Type 0 where
  pub test_id : String
  pub chunk_index : Option ℕ
  pub chunk_count : Option ℕ
  pub payload : Option String
  pub success : Option Bool
  pub error : Option String
  pub duration : Option ℕ

-- `ResultChunkBuffer`; a chunk that has not come is `none`.
pub record ResultChunkBuffer : Type 0 where
  pub device_id : String
  pub chunk_count : ℕ
  pub chunks : List (Option String)
  pub received_chunks : List ℕ
  pub success : Option Bool
  pub error : Option String
  pub duration : Option ℕ
  pub updated_at : ℕ

unfoldable pub no_chunks : ℕ → List (Option String)
no_chunks zero = []
no_chunks (suc n) = none ∷ no_chunks n

-- `chunks[i] = payload` inside the array
unfoldable pub put_chunk : List (Option String) → ℕ → String → List (Option String)
put_chunk [] i payload = []
put_chunk (c ∷ cs) zero payload = some payload ∷ cs
put_chunk (c ∷ cs) (suc i) payload = c ∷ put_chunk cs i payload

-- A set of numbers
abbrev pub has_number : List ℕ → ℕ → Bool
has_number xs i = any (λ x. x == i) xs

abbrev pub add_number : List ℕ → ℕ → List ℕ
add_number xs i = if has_number xs i then xs else xs ++ i ∷ []

-- `chunks.join('')`
unfoldable pub join_chunks : List (Option String) → String
join_chunks [] = ""
join_chunks (none ∷ cs) = join_chunks cs
join_chunks (some s ∷ cs) = append s (join_chunks cs)

pub new_buffer : String → ℕ → ℕ → ResultChunkBuffer
new_buffer device_id chunk_count now = record {
  device_id = device_id;
  chunk_count = chunk_count;
  chunks = no_chunks chunk_count;
  received_chunks = [];
  success = none;
  error = none;
  duration = none;
  updated_at = now;
}

pub kept_or_new : String → ℕ → ℕ → Option ResultChunkBuffer → ResultChunkBuffer
unfolding new_buffer
kept_or_new device_id chunk_count now none = new_buffer device_id chunk_count now
kept_or_new device_id chunk_count now (some b) =
    if b.chunk_count == chunk_count then b else new_buffer device_id chunk_count now

pub write_chunk : ResultChunkBuffer → ChunkedResultMessage → ℕ → String → ℕ → ResultChunkBuffer
write_chunk b m i payload now = record {
  device_id = b.device_id;
  chunk_count = b.chunk_count;
  chunks = put_chunk b.chunks i payload;
  received_chunks = add_number b.received_chunks i;
  success = or_option m.success b.success;
  error = or_option m.error b.error;
  duration = or_option m.duration b.duration;
  updated_at = now;
}

-- What the handler does of one message: nothing, wait for more, or go on with the whole payload
pub data Outcome : Type 0 where
  ignored : Outcome
  pending : Outcome
  complete : String → ResultChunkBuffer → Outcome

unfoldable pub settle :
    Dict ResultChunkBuffer → String → ResultChunkBuffer → Dict ResultChunkBuffer × Outcome
settle buffers test_id b =
    if length b.received_chunks == b.chunk_count
    then (remove (set buffers test_id b) test_id, complete (join_chunks b.chunks) b)
    else (set buffers test_id b, pending)

-- One arrival of a chunk: the time, the device of the topic and the message
pub record Arrival : Type 0 where
  pub now : ℕ
  pub device_id : String
  pub message : ChunkedResultMessage

unfoldable pub accept :
    Dict ResultChunkBuffer
    → Arrival
    → Option ℕ
    → Option ℕ
    → Option String
    → Dict ResultChunkBuffer × Outcome
unfolding settle write_chunk kept_or_new
accept buffers a (some i) (some n) (some payload) =
    let t = a.message.test_id in
    if n == 0 || leb n i
    then (buffers, ignored)
    else settle buffers t
        (write_chunk (kept_or_new a.device_id n a.now (get buffers t)) a.message i payload a.now)
accept buffers a _ _ _ = (buffers, ignored)

-- `handleChunkedTestResults` up to the payload that it goes on with
unfoldable pub receive_chunk : Dict ResultChunkBuffer → Arrival → Dict ResultChunkBuffer × Outcome
unfolding accept
receive_chunk buffers a =
    if is_empty a.message.test_id
    then (buffers, ignored)
    else accept buffers a a.message.chunk_index a.message.chunk_count a.message.payload

unfoldable pub with_outcome : String → Outcome → List (String × String) → List (String × String)
with_outcome test_id (complete payload b) rest = (test_id, payload) ∷ rest
with_outcome test_id _ rest = rest

-- The payloads that a sequence of arrivals goes on with, each with its test
unfoldable pub deliveries : Dict ResultChunkBuffer → List Arrival → List (String × String)
unfolding with_outcome
deliveries buffers [] = []
deliveries buffers (a ∷ later) =
    let step = receive_chunk buffers a in
    with_outcome a.message.test_id step.1 (deliveries step.0 later)

-- `cleanupStaleChunkBuffers`
pub cleanup_stale_chunk_buffers : ℕ → Dict ResultChunkBuffer → Dict ResultChunkBuffer
cleanup_stale_chunk_buffers now [] = []
cleanup_stale_chunk_buffers now ((t, b) ∷ bs) =
    let rest = cleanup_stale_chunk_buffers now bs in
    if ltb 60000 (now - b.updated_at) then rest else (t, b) ∷ rest
