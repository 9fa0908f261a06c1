-- ===== src/TestResults/Chunks/Deliveries.antt =====
-- The chunks of one payload, in any order and as often as they come, are put together to that payload.
use zero_proof.TestResults.Chunks.Others.{
  is_delivered, receive_chunk-others, with_outcome-others, with_outcome-others_whole,
}
use zero_proof.Base.{
  ℕ, ◌<◌, String, ◌≡◌, refl, ◌∙◌, ◌↔◌, inl, inr, Bool, true, false, ◌&&◌, ◌||◌, Option, none, some,
  List, [], ◌∷◌, arith, str_eq, eq_iff, eq_refl, ◌==◌, Bool-cases, length, All, any,
}
use zero_proof.TestResults.Chunks.{
  pending, complete, ChunkedResultMessage, Arrival, receive_chunk, with_outcome, ResultChunkBuffer,
  deliveries, put_chunk,
}
use zero_proof.TestResults.Chunks.Slots.{
  is_filled, filled, part_at, whole, all_filled, filled_all, is_filled-put_chunk, length-put_chunk,
  is_filled-no_chunks, Agrees-length, length-no_chunks,
}
use zero_proof.Base.Dict.{Dict, get, get-remove, get-set, set, remove}
use zero_proof.TestResults.Chunks.Reassembly.{slots, Collects, receive_chunk-cases, part_at-lt}
use zero_proof.Base.Text.{is_empty}

-- A message with a part of the payload
abbrev pub IsPart : List String → ChunkedResultMessage → Type 0
IsPart ps m =
    (m.chunk_count ≡ some (length ps))
    × ((i : ℕ) × (p : String) × (m.chunk_index ≡ some i)
        × (m.payload ≡ some p)
        × (part_at ps i ≡ some p))

-- All that comes for a test are parts of its payload.
abbrev pub SendsParts : String → List String → List Arrival → Type 0
SendsParts t ps = All (λ a. str_eq a.message.test_id t ≡ true → IsPart ps a.message)

abbrev is_index : ℕ → Option ℕ → Bool
is_index i none = false
is_index i (some j) = j == i

-- A chunk of the test with an index is among the arrivals.
abbrev pub has_come : String → List Arrival → ℕ → Bool
has_come t [] i = false
has_come t (a ∷ later) i =
    (str_eq a.message.test_id t && is_index i a.message.chunk_index) || has_come t later i

length-slots :
    (ps : List String) (o : Option ResultChunkBuffer)
    → Collects ps o
    → length (slots (length ps) o) ≡ length ps
length-slots ps none h = length-no_chunks (length ps)
length-slots ps (some b) h = Agrees-length ps b.chunks h.2

-- Each index is filled already or comes.
Covers : List String → String → Option ResultChunkBuffer → List Arrival → Type 0
Covers ps t o later =
    (i : ℕ) → i < length ps → (is_filled (slots (length ps) o) i || has_come t later i) ≡ true

-- A test's payload is delivered just when all of its parts come, and nothing else is delivered for it.
Reassembles : List String → String → Dict ResultChunkBuffer → List Arrival → Type 0
Reassembles ps t buffers later =
    (Covers ps t (get buffers t) later ↔ (is_delivered t (deliveries buffers later) ≡ true))
    × All (λ d. str_eq d.0 t ≡ true → d.1 ≡ whole ps) (deliveries buffers later)

-- Without arrivals: a buffer that is kept waits for a chunk.
uncovered :
    (ps : List String) (t : String) (o : Option ResultChunkBuffer)
    → 0 < length ps
    → Collects ps o
    → Covers ps t o []
    → ⊥
unfolding Covers
uncovered ps t none some_part h c =
    let filled_0 = c 0 some_part in ground (arith, filled_0, is_filled-no_chunks (length ps) 0)
uncovered ps t (some b) some_part h c =
    let size = Agrees-length ps b.chunks h.2 in
    let full = all_filled b.chunks (λ i below. ground (arith, c i (omega (arith, size, below)))) in
    omega (arith, full, size, h.0.1, h.1)

-- The slots after one more part, and the index that has come
covers-step :
    (ps : List String) (a : Arrival) (t : String) (later : List Arrival)
    (o : Option ResultChunkBuffer) (i j : ℕ) (p : String)
    → str_eq a.message.test_id t ≡ true
    → a.message.chunk_index ≡ some i
    → part_at ps i ≡ some p
    → Collects ps o
    → (is_filled (put_chunk (slots (length ps) o) i p) j || has_come t later j)
      ≡ (is_filled (slots (length ps) o) j || has_come t (a ∷ later) j)
covers-step ps a t later o i j p own index part h =
    let inside : i < length (slots (length ps) o) =
      omega (arith, length-slots ps o h, part_at-lt ps i p part) in
    rw (own, index, is_filled-put_chunk (slots (length ps) o) i j p inside) (ground arith)

-- An arrival for another test
Reassembles-others :
    (ps : List String) (t : String) (buffers : Dict ResultChunkBuffer) (a : Arrival)
    (later : List Arrival)
    → str_eq a.message.test_id t ≡ false
    → Reassembles ps t (receive_chunk buffers a).0 later
    → Reassembles ps t buffers (a ∷ later)
unfolding Reassembles Covers deliveries
Reassembles-others ps t buffers a later apart (next, sound) =
    let same = receive_chunk-others buffers a t apart in
    let outcome = (receive_chunk buffers a).1 in
    let rest = deliveries (receive_chunk buffers a).0 later in
    (
      rw (apart, with_outcome-others t a.message.test_id outcome rest apart, ← same) next,
      with_outcome-others_whole ps t a.message.test_id outcome rest apart sound,
    )

-- An arrival of a part: the payload is whole
Reassembles-complete :
    (ps : List String) (t : String) (buffers buffers' : Dict ResultChunkBuffer) (a : Arrival)
    (later : List Arrival) (b : ResultChunkBuffer)
    → str_eq a.message.test_id t ≡ true
    → receive_chunk buffers a ≡ (buffers', complete (whole ps) b)
    → Covers ps t (get buffers t) (a ∷ later)
    → Reassembles ps t buffers' later
    → Reassembles ps t buffers (a ∷ later)
unfolding Reassembles deliveries with_outcome is_delivered
Reassembles-complete ps t buffers buffers' a later b own step covered (next, sound) =
    rw (step, own) (((λ c. refl), λ d. covered), ((λ e. refl), sound))

Reassembles-pending :
    (ps : List String) (t : String) (buffers : Dict ResultChunkBuffer) (a : Arrival)
    (later : List Arrival) (b : ResultChunkBuffer) (i : ℕ) (p : String)
    → str_eq a.message.test_id t ≡ true
    → a.message.chunk_index ≡ some i
    → part_at ps i ≡ some p
    → Collects ps (get buffers t)
    → receive_chunk buffers a ≡ (set buffers t b, pending)
    → b.chunks ≡ put_chunk (slots (length ps) (get buffers t)) i p
    → Reassembles ps t (set buffers t b) later
    → Reassembles ps t buffers (a ∷ later)
unfolding Reassembles Covers deliveries with_outcome
Reassembles-pending ps t buffers a later b i p own index part h step chunks (next, sound) =
    let found : get (set buffers t b) t ≡ some b = get-set buffers t t b ∙ (rw (eq_refl t) refl) in
    let same = λ (j : ℕ). covers-step ps a t later (get buffers t) i j p own index part h in
    rw step (
      (
        (λ c. next.0 (λ j below. rw (found, chunks, same j) (c j below))),
        λ d j below. rw (← same j, ← chunks) ((rw found at next).1 d j below),
      ),
      sound,
    )

-- The last part that was missing: each index has come.
complete-Covers :
    (ps : List String) (t : String) (o : Option ResultChunkBuffer) (a : Arrival)
    (later : List Arrival) (i : ℕ) (p : String)
    → str_eq a.message.test_id t ≡ true
    → a.message.chunk_index ≡ some i
    → part_at ps i ≡ some p
    → Collects ps o
    → filled (put_chunk (slots (length ps) o) i p) ≡ length (put_chunk (slots (length ps) o) i p)
    → Covers ps t o (a ∷ later)
unfolding Covers
complete-Covers ps t o a later i p own index part h full j below =
    let size = length-put_chunk (slots (length ps) o) i p in
    let here =
      filled_all (put_chunk (slots (length ps) o) i p) j full
        (omega (arith, size, length-slots ps o h)) in
    rw (← covers-step ps a t later o i j p own index part h, here) refl

-- An arrival of a part
Reassembles-own :
    (ps : List String) (buffers : Dict ResultChunkBuffer) (a : Arrival) (later : List Arrival)
    → is_empty a.message.test_id ≡ false
    → IsPart ps a.message
    → Collects ps (get buffers a.message.test_id)
    → ((buffers' : Dict ResultChunkBuffer)
        → Collects ps (get buffers' a.message.test_id)
        → Reassembles ps a.message.test_id buffers' later)
    → Reassembles ps a.message.test_id buffers (a ∷ later)
Reassembles-own ps buffers a later named (count, (i, p, index, payload, part)) h next =
    let t = a.message.test_id in
    let own = eq_refl t in
    elim (receive_chunk-cases ps buffers a i p named count index payload part h) [
      | inl (b, step, full) ↦
          Reassembles-complete ps t buffers (remove (set buffers t b) t) a later b own step
            (complete-Covers ps t (get buffers t) a later i p own index part h full)
            (next (remove (set buffers t b) t)
              (rw (get-remove (set buffers t b) t t, eq_refl t) tt))
      | inr (b, step, collects, chunks) ↦
          Reassembles-pending ps t buffers a later b i p own index part h step chunks
            (next (set buffers t b) (rw (get-set buffers t t b, eq_refl t) collects))
    ]

Reassembles-any :
    (later : List Arrival) (ps : List String) (t : String) (buffers : Dict ResultChunkBuffer)
    → is_empty t ≡ false
    → 0 < length ps
    → SendsParts t ps later
    → Collects ps (get buffers t)
    → Reassembles ps t buffers later
unfolding Reassembles deliveries is_delivered
Reassembles-any [] ps t buffers named some_part sends h =
    (((λ c. absurd (uncovered ps t (get buffers t) some_part h c)), λ d. absurd (cc)), tt)
Reassembles-any (a ∷ later) ps t buffers named some_part sends h =
    elim (Bool-cases (str_eq a.message.test_id t)) [
      | inl own ↦
          let e = (eq_iff a.message.test_id t).0 own in
          rw (← e) (
            Reassembles-own ps buffers a later (rw e named) (sends.0 own) (rw e h)
              (λ buffers' collects.
                rw e (
                  Reassembles-any later ps t buffers' named some_part sends.1 (rw (← e) collects))))
      | inr apart ↦ Reassembles-others ps t buffers a later apart (
          Reassembles-any later ps t (receive_chunk buffers a).0 named some_part sends.1
            (rw (receive_chunk-others buffers a t apart) h))
    ]

-- A test without a buffer, whose payload has at least one part: where every chunk that comes for it is
-- one of the parts, in any order, as often as it comes and among the chunks of other tests, the payload
-- is delivered just when each part has come, and whatever is delivered for the test is the payload.
pub deliveries-reassembled :
    (ps : List String) (t : String) (buffers : Dict ResultChunkBuffer) (arrivals : List Arrival)
    → is_empty t ≡ false
    → 0 < length ps
    → get buffers t ≡ none
    → SendsParts t ps arrivals
    → (((i : ℕ) → i < length ps → has_come t arrivals i ≡ true)
        ↔ (any (λ d. str_eq d.0 t) (deliveries buffers arrivals) ≡ true))
      × All (λ d. str_eq d.0 t ≡ true → d.1 ≡ whole ps) (deliveries buffers arrivals)
unfolding Reassembles Covers is_delivered
deliveries-reassembled ps t buffers arrivals named some_part fresh sends =
    let both = Reassembles-any arrivals ps t buffers named some_part sends (rw fresh tt) in
    let nothing = is_filled-no_chunks (length ps) in
    (
      (
        (λ come. both.0.0 (λ i below. rw (fresh, nothing i) (come i below))),
        λ d i below. ground (arith, nothing i, rw fresh at both.0.1 d i below),
      ),
      both.1,
    )
