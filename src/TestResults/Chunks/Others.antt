-- ===== src/TestResults/Chunks/Others.antt =====
-- The messages of the other tests, for one test.
use zero_proof.TestResults.Chunks.{
  ignored, pending, complete, with_outcome, receive_chunk, accept, settle, Outcome,
  ResultChunkBuffer, Arrival,
}
use zero_proof.Base.{
  ℕ, String, ◌≡◌, refl, inl, inr, Bool, true, false, ◌||◌, Option, none, some, List, arith, str_eq,
  leb, ◌==◌, Bool-cases, length, All, any,
}
use zero_proof.Base.Dict.{Dict, get, remove-set, get-remove, get-set}
use zero_proof.Base.Text.{is_empty}
use zero_proof.TestResults.Chunks.Slots.{whole}

-- A payload of the test is among the delivered.
unfoldable pub is_delivered : String → List (String × String) → Bool
is_delivered t ds = any (λ d. str_eq d.0 t) ds

-- The messages of other tests leave a test's buffer.
settle-others :
    (buffers : Dict ResultChunkBuffer) (t other : String) (b : ResultChunkBuffer)
    → str_eq other t ≡ false
    → get (settle buffers other b).0 t ≡ get buffers t
unfolding settle
settle-others buffers t other b apart =
    elim (Bool-cases (length b.received_chunks == b.chunk_count)) [
      | inl full ↦ rw (full, remove-set buffers other b, get-remove buffers other t, apart) refl
      | inr waiting ↦ rw (waiting, get-set buffers other t b, apart) refl
    ]

accept-others :
    (buffers : Dict ResultChunkBuffer) (a : Arrival) (t : String) (i n : Option ℕ)
    (p : Option String)
    → str_eq a.message.test_id t ≡ false
    → get (accept buffers a i n p).0 t ≡ get buffers t
unfolding accept
accept-others buffers a t none n p apart = refl
accept-others buffers a t (some i) none p apart = refl
accept-others buffers a t (some i) (some n) none apart = refl
accept-others buffers a t (some i) (some n) (some p) apart = elim (Bool-cases (n == 0 || leb n i)) [
  | inl bad ↦ rw bad refl
  | inr good ↦ rw good (settle-others buffers t a.message.test_id _ apart)
]

pub receive_chunk-others :
    (buffers : Dict ResultChunkBuffer) (a : Arrival) (t : String)
    → str_eq a.message.test_id t ≡ false
    → get (receive_chunk buffers a).0 t ≡ get buffers t
unfolding receive_chunk
receive_chunk-others buffers a t apart = elim (Bool-cases (is_empty a.message.test_id)) [
  | inl empty ↦ rw empty refl
  | inr named ↦ rw named (
      accept-others buffers a t a.message.chunk_index a.message.chunk_count a.message.payload apart)
]

pub with_outcome-others :
    (t other : String) (o : Outcome) (ds : List (String × String))
    → str_eq other t ≡ false
    → is_delivered t (with_outcome other o ds) ≡ is_delivered t ds
unfolding is_delivered with_outcome
with_outcome-others t other ignored ds apart = refl
with_outcome-others t other pending ds apart = refl
with_outcome-others t other (complete s b) ds apart = rw apart refl

pub with_outcome-others_whole :
    (ps : List String) (t other : String) (o : Outcome) (ds : List (String × String))
    → str_eq other t ≡ false
    → All (λ d. str_eq d.0 t ≡ true → d.1 ≡ whole ps) ds
    → All (λ d. str_eq d.0 t ≡ true → d.1 ≡ whole ps) (with_outcome other o ds)
unfolding with_outcome
with_outcome-others_whole ps t other ignored ds apart h = h
with_outcome-others_whole ps t other pending ds apart h = h
with_outcome-others_whole ps t other (complete s b) ds apart h =
    ((λ same. absurd (ground (arith, apart, same))), h)
