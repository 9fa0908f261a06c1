-- ===== src/TestResults/Chunks/Reassembly.antt =====
-- What a chunk with a part of a payload does: the buffer waits, or goes on with the payload.
use zero_proof.Base.{
  ℕ, zero, suc, ◌<◌, String, ◌≡◌, refl, ap, ◌∙◌, ◌⊎◌, inl, inr, true, false, ◌||◌, Option, none,
  some, List, [], ◌∷◌, arith, leb, ◌==◌, Bool-cases, length,
}
use zero_proof.TestResults.Chunks.Slots.{
  Agrees, filled, part_at, whole, filled-le, put_chunk-Agrees, join_chunks-whole, no_chunks-Agrees,
}
use zero_proof.TestResults.Chunks.{
  kept_or_new, ResultChunkBuffer, settle, receive_chunk, write_chunk, accept, no_chunks, new_buffer,
  ChunkedResultMessage, Arrival, complete, pending, put_chunk,
}
use zero_proof.Base.Dict.{Dict, remove, set, get}
use zero_proof.Base.Text.{is_empty}
use zero_proof.TestResults.Chunks.Receiving.{
  IsSound, IsOpen, write_chunk-IsSound, new_buffer-IsSound,
}

-- The slots that the handler goes on with: the buffer's, or none filled
abbrev pub slots : ℕ → Option ResultChunkBuffer → List (Option String)
slots n none = no_chunks n
slots n (some b) = b.chunks

-- A buffer that may have all parts of a payload, and one that waits for some
abbrev Holds : List String → ResultChunkBuffer → Type 0
Holds ps b = IsSound b × (b.chunk_count ≡ length ps) × Agrees ps b.chunks

abbrev pub Collects : List String → Option ResultChunkBuffer → Type 0
Collects ps none = Unit
Collects ps (some b) = IsOpen b × (b.chunk_count ≡ length ps) × Agrees ps b.chunks

kept_or_new-Holds :
    (ps : List String) (device : String) (now : ℕ) (o : Option ResultChunkBuffer)
    → Collects ps o
    → Holds ps (kept_or_new device (length ps) now o)
      × ((kept_or_new device (length ps) now o).chunks ≡ slots (length ps) o)
unfolding kept_or_new new_buffer
kept_or_new-Holds ps device now none h =
    ((new_buffer-IsSound device (length ps) now, refl, no_chunks-Agrees ps), refl)
kept_or_new-Holds ps device now (some b) (waiting, count, agrees) =
    let same : (b.chunk_count == length ps) ≡ true = ground arith in
    rw same ((waiting.0, count, agrees), refl)

pub part_at-lt : (ps : List String) (i : ℕ) (p : String) → part_at ps i ≡ some p → i < length ps
part_at-lt [] i p e = absurd (cc)
part_at-lt (q ∷ ps) zero p e = omega arith
part_at-lt (q ∷ ps) (suc i) p e = omega (arith, part_at-lt ps i p e)

write_chunk-Holds :
    (ps : List String) (b : ResultChunkBuffer) (m : ChunkedResultMessage) (i : ℕ) (p : String)
    (now : ℕ)
    → Holds ps b
    → part_at ps i ≡ some p
    → Holds ps (write_chunk b m i p now)
unfolding write_chunk
write_chunk-Holds ps b m i p now (sound, count, agrees) e = (
  write_chunk-IsSound b m i p now sound (omega (arith, count, part_at-lt ps i p e)),
  count,
  put_chunk-Agrees ps b.chunks i p agrees e,
)

-- The outcomes of a buffer that has a chunk more
settle-cases :
    (ps : List String) (buffers : Dict ResultChunkBuffer) (t : String) (b : ResultChunkBuffer)
    → Holds ps b
    → ((settle buffers t b ≡ (remove (set buffers t b) t, complete (whole ps) b))
        × (filled b.chunks ≡ length b.chunks))
      ⊎ ((settle buffers t b ≡ (set buffers t b, pending)) × Collects ps (some b))
unfolding settle
settle-cases ps buffers t b (sound, count, agrees) =
    elim (Bool-cases (length b.received_chunks == b.chunk_count)) [
      | inl full ↦
          let e : filled b.chunks ≡ length b.chunks = ground (arith, sound.0, sound.1) in
          inl (rw (full, join_chunks-whole ps b.chunks agrees e) refl, e)
      | inr waiting ↦ inr (
        rw waiting refl,
        ((sound, ground (arith, sound.0, sound.1, filled-le b.chunks)), count, agrees),
      )
    ]

-- What a part does: it is the last one that was missing, or its slot is filled and the buffer waits.
pub receive_chunk-cases :
    (ps : List String) (buffers : Dict ResultChunkBuffer) (a : Arrival) (i : ℕ) (p : String)
    → is_empty a.message.test_id ≡ false
    → a.message.chunk_count ≡ some (length ps)
    → a.message.chunk_index ≡ some i
    → a.message.payload ≡ some p
    → part_at ps i ≡ some p
    → Collects ps (get buffers a.message.test_id)
    → let t = a.message.test_id in
      let after = put_chunk (slots (length ps) (get buffers t)) i p in
      ((b : ResultChunkBuffer) × (receive_chunk buffers a
          ≡ (remove (set buffers t b) t, complete (whole ps) b))
        × (filled after ≡ length after))
      ⊎ ((b : ResultChunkBuffer) × (receive_chunk buffers a ≡ (set buffers t b, pending))
          × Collects ps (some b)
          × (b.chunks ≡ after))
unfolding receive_chunk accept write_chunk
receive_chunk-cases ps buffers a i p named count index payload part h =
    let t = a.message.test_id in
    let kept = kept_or_new a.device_id (length ps) a.now (get buffers t) in
    let b = write_chunk kept a.message i p a.now in
    let holds = kept_or_new-Holds ps a.device_id a.now (get buffers t) h in
    let valid : (length ps == 0 || leb (length ps) i) ≡ false =
      ground (arith, part_at-lt ps i p part) in
    let step : receive_chunk buffers a ≡ settle buffers t b =
      rw (named, count, index, payload, valid) refl in
    let chunks : b.chunks ≡ put_chunk (slots (length ps) (get buffers t)) i p =
      ap (λ cs. put_chunk cs i p) holds.1 in
    rw (← chunks)
      (elim (settle-cases ps buffers t b
        (write_chunk-Holds ps kept a.message i p a.now holds.0 part)) [
          | inl (done, full) ↦ inl (b, step ∙ done, full)
          | inr (waits, collects) ↦ inr (b, step ∙ waits, collects, refl)
        ])
