-- ===== src/TestResults/Chunks/Receiving.antt =====
-- What one chunk does to the buffer of its test.
use zero_proof.Base.{
  ℕ, suc, ◌-◌, ◌<◌, String, ◌≡◌, refl, sym, ◌∙◌, inl, inr, ◌||◌, Option, none, some, List, [], ◌∷◌,
  ◌++◌, arith, ltb, leb, ◌==◌, if◌then◌else◌, Bool-cases, length, All, length-append,
}
use zero_proof.TestResults.Chunks.{
  new_buffer, ResultChunkBuffer, write_chunk, has_number, add_number, kept_or_new, settle,
  ChunkedResultMessage, receive_chunk, accept, Arrival, cleanup_stale_chunk_buffers,
}
use zero_proof.Base.Dict.{Dict, set-All, remove-set, remove-All, get, get-All}
use zero_proof.Base.Text.{is_empty}
use zero_proof.TestResults.Chunks.Slots.{
  is_filled, filled, length-no_chunks, length-put_chunk, no_chunks-filled, is_filled-no_chunks,
  filled-put_chunk, is_filled-put_chunk, filled-le,
}

has_number-append :
    (xs : List ℕ) (i j : ℕ) → has_number (xs ++ i ∷ []) j ≡ (i == j || has_number xs j)
has_number-append [] i j = ground arith
has_number-append (x ∷ xs) i j = ground (arith, has_number-append xs i j)

has_number-add_number :
    (xs : List ℕ) (i j : ℕ) → has_number (add_number xs i) j ≡ (i == j || has_number xs j)
has_number-add_number xs i j = elim (Bool-cases (has_number xs i)) [
  | inl there ↦ rw there (elim (Bool-cases (i == j)) [
    | inl same ↦ let e : i ≡ j = ground arith in rw (same, ← e, there) refl
    | inr apart ↦ rw apart refl
  ])
  | inr missing ↦ rw missing (has_number-append xs i j)
]

length-add_number :
    (xs : List ℕ) (i : ℕ)
    → length (add_number xs i) ≡ (if has_number xs i then length xs else suc (length xs))
length-add_number xs i = ground (arith, length-append xs (i ∷ []))

-- The received indexes are those of the filled slots, each once.
abbrev pub IsSound : ResultChunkBuffer → Type 0
IsSound b =
    (length b.chunks ≡ b.chunk_count)
    × (length b.received_chunks ≡ filled b.chunks)
    × ((i : ℕ) → has_number b.received_chunks i ≡ is_filled b.chunks i)

pub new_buffer-IsSound : (device : String) (n now : ℕ) → IsSound (new_buffer device n now)
unfolding new_buffer
new_buffer-IsSound device n now =
    (length-no_chunks n, sym (no_chunks-filled n), λ i. sym (is_filled-no_chunks n i))

pub write_chunk-IsSound :
    (b : ResultChunkBuffer) (m : ChunkedResultMessage) (i : ℕ) (p : String) (now : ℕ)
    → IsSound b
    → i < b.chunk_count
    → IsSound (write_chunk b m i p now)
unfolding write_chunk
write_chunk-IsSound b m i p now (size, count, members) below =
    let inside : i < length b.chunks = omega arith in
    (
      length-put_chunk b.chunks i p ∙ size,
      rw
          (
            length-add_number b.received_chunks i,
            filled-put_chunk b.chunks i p inside,
            members i,
            count,
          )
          refl,
      λ j.
          rw
            (
              has_number-add_number b.received_chunks i j,
              members j,
              is_filled-put_chunk b.chunks i j p inside,
            )
            refl,
    )

-- A sound buffer with a slot left
abbrev pub IsOpen : ResultChunkBuffer → Type 0
IsOpen b = IsSound b × (filled b.chunks < b.chunk_count)

pub kept_or_new-IsSound :
    (device : String) (n now : ℕ) (o : Option ResultChunkBuffer)
    → ((b : ResultChunkBuffer) → o ≡ some b → IsSound b)
    → IsSound (kept_or_new device n now o) × ((kept_or_new device n now o).chunk_count ≡ n)
unfolding kept_or_new new_buffer
kept_or_new-IsSound device n now none h = (new_buffer-IsSound device n now, refl)
kept_or_new-IsSound device n now (some b) h = elim (Bool-cases (b.chunk_count == n)) [
  | inl same ↦ rw same (h b refl, ground arith)
  | inr other ↦ rw other (new_buffer-IsSound device n now, refl)
]

settle-IsOpen :
    (buffers : Dict ResultChunkBuffer) (t : String) (b : ResultChunkBuffer)
    → All (λ e. IsOpen e.1) buffers
    → IsSound b
    → All (λ e. IsOpen e.1) (settle buffers t b).0
unfolding settle
settle-IsOpen buffers t b h (size, count, members) =
    elim (Bool-cases (length b.received_chunks == b.chunk_count)) [
      | inl full ↦ rw (full, remove-set buffers t b) (remove-All (λ e. IsOpen e.1) buffers t h)
      | inr waiting ↦ rw waiting (
          set-All (λ e. IsOpen e.1) buffers t b h
            ((size, count, members), ground (arith, filled-le b.chunks)))
    ]

accept-IsOpen :
    (buffers : Dict ResultChunkBuffer) (a : Arrival) (i n : Option ℕ) (p : Option String)
    → All (λ e. IsOpen e.1) buffers
    → All (λ e. IsOpen e.1) (accept buffers a i n p).0
unfolding accept
accept-IsOpen buffers a none n p h = h
accept-IsOpen buffers a (some i) none p h = h
accept-IsOpen buffers a (some i) (some n) none h = h
accept-IsOpen buffers a (some i) (some n) (some p) h = elim (Bool-cases (n == 0 || leb n i)) [
  | inl bad ↦ rw bad h
  | inr good ↦
      let t = a.message.test_id in
      let b = kept_or_new a.device_id n a.now (get buffers t) in
      let kept =
        kept_or_new-IsSound a.device_id n a.now (get buffers t)
          (λ c e. (get-All (λ e. IsOpen e.1) buffers t c h e).0) in
      rw good (
        settle-IsOpen buffers t (write_chunk b a.message i p a.now) h
          (write_chunk-IsSound b a.message i p a.now kept.0 (ground (arith, kept.1))))
]

cleanup_stale_chunk_buffers-IsOpen :
    (now : ℕ) (buffers : Dict ResultChunkBuffer)
    → All (λ e. IsOpen e.1) buffers
    → All (λ e. IsOpen e.1) (cleanup_stale_chunk_buffers now buffers)
unfolding cleanup_stale_chunk_buffers
cleanup_stale_chunk_buffers-IsOpen now [] h = tt
cleanup_stale_chunk_buffers-IsOpen now ((t, b) ∷ bs) h =
    let rest = cleanup_stale_chunk_buffers-IsOpen now bs h.1 in
    elim (Bool-cases (ltb 60000 (now - b.updated_at))) [
      | inl stale ↦ rw stale rest
      | inr fresh ↦ rw fresh (h.0, rest)
    ]

received-IsOpen :
    (buffers : Dict ResultChunkBuffer) (a : Arrival)
    → All (λ e. IsOpen e.1) buffers
    → All (λ e. IsOpen e.1) (receive_chunk buffers a).0
unfolding receive_chunk
received-IsOpen buffers a h = elim (Bool-cases (is_empty a.message.test_id)) [
  | inl empty ↦ rw empty h
  | inr named ↦
      rw named
        (accept-IsOpen buffers a a.message.chunk_index a.message.chunk_count a.message.payload h)
]

-- Where every buffer waits for a chunk, every buffer does so after any message whose index and count,
-- if they are numbers, are whole and not negative, and after a clean-up: its received indexes are
-- those of its filled slots, each once, and there are fewer than it counts.
pub receive_chunk-IsOpen :
    (buffers : Dict ResultChunkBuffer) (a : Arrival) (now : ℕ)
    → All (λ e. IsOpen e.1) buffers
    → All (λ e. IsOpen e.1) (receive_chunk buffers a).0
      × All (λ e. IsOpen e.1) (cleanup_stale_chunk_buffers now buffers)
receive_chunk-IsOpen buffers a now h =
    (received-IsOpen buffers a h, cleanup_stale_chunk_buffers-IsOpen now buffers h)
