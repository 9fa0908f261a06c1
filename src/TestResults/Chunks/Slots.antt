-- ===== src/TestResults/Chunks/Slots.antt =====
-- The slots of a buffer: which are filled, how many, and what they join to.
use zero_proof.TestResults.Chunks.{put_chunk, no_chunks, join_chunks}
use zero_proof.Base.{
  ℕ, zero, suc, ◌≤◌, ◌<◌, String, append, ◌≡◌, refl, ap, Bool, true, false, ◌||◌, Option, none,
  some, List, [], ◌∷◌, arith, ◌==◌, if◌then◌else◌, is_some, length,
}

abbrev pub is_filled : List (Option String) → ℕ → Bool
is_filled [] i = false
is_filled (c ∷ cs) zero = is_some c
is_filled (c ∷ cs) (suc i) = is_filled cs i

abbrev pub filled : List (Option String) → ℕ
filled [] = 0
filled (none ∷ cs) = filled cs
filled (some s ∷ cs) = suc (filled cs)

-- The part of the payload with an index
abbrev pub part_at : List String → ℕ → Option String
part_at [] i = none
part_at (p ∷ ps) zero = some p
part_at (p ∷ ps) (suc i) = part_at ps i

-- Each filled slot has the part of the payload with its index.
abbrev pub Agrees : List String → List (Option String) → Type 0
Agrees [] [] = Unit
Agrees (p ∷ ps) (none ∷ cs) = Agrees ps cs
Agrees (p ∷ ps) (some s ∷ cs) = (s ≡ p) × Agrees ps cs
Agrees _ _ = ⊥

-- The parts in their order
abbrev pub whole : List String → String
whole [] = ""
whole (p ∷ ps) = append p (whole ps)

pub filled-le : (cs : List (Option String)) → filled cs ≤ length cs
filled-le [] = omega arith
filled-le (none ∷ cs) = omega (arith, filled-le cs)
filled-le (some s ∷ cs) = omega (arith, filled-le cs)

pub no_chunks-Agrees : (ps : List String) → Agrees ps (no_chunks (length ps))
unfolding no_chunks
no_chunks-Agrees [] = tt
no_chunks-Agrees (p ∷ ps) = no_chunks-Agrees ps

pub no_chunks-filled : (n : ℕ) → filled (no_chunks n) ≡ 0
unfolding no_chunks
no_chunks-filled zero = refl
no_chunks-filled (suc n) = no_chunks-filled n

pub is_filled-no_chunks : (n i : ℕ) → is_filled (no_chunks n) i ≡ false
unfolding no_chunks
is_filled-no_chunks zero i = refl
is_filled-no_chunks (suc n) zero = refl
is_filled-no_chunks (suc n) (suc i) = is_filled-no_chunks n i

pub length-no_chunks : (n : ℕ) → length (no_chunks n) ≡ n
unfolding no_chunks
length-no_chunks zero = refl
length-no_chunks (suc n) = ap suc (length-no_chunks n)

pub length-put_chunk :
    (cs : List (Option String)) (i : ℕ) (p : String) → length (put_chunk cs i p) ≡ length cs
unfolding put_chunk
length-put_chunk [] i p = refl
length-put_chunk (c ∷ cs) zero p = refl
length-put_chunk (c ∷ cs) (suc i) p = ap suc (length-put_chunk cs i p)

pub is_filled-put_chunk :
    (cs : List (Option String)) (i j : ℕ) (p : String)
    → i < length cs
    → is_filled (put_chunk cs i p) j ≡ (i == j || is_filled cs j)
unfolding put_chunk
is_filled-put_chunk [] i j p h = absurd (omega arith)
is_filled-put_chunk (c ∷ cs) zero zero p h = ground arith
is_filled-put_chunk (c ∷ cs) zero (suc j) p h = ground arith
is_filled-put_chunk (c ∷ cs) (suc i) zero p h = ground arith
is_filled-put_chunk (c ∷ cs) (suc i) (suc j) p h =
    ground (arith, is_filled-put_chunk cs i j p (omega arith))

pub filled-put_chunk :
    (cs : List (Option String)) (i : ℕ) (p : String)
    → i < length cs
    → filled (put_chunk cs i p) ≡ (if is_filled cs i then filled cs else suc (filled cs))
unfolding put_chunk
filled-put_chunk [] i p h = absurd (omega arith)
filled-put_chunk (none ∷ cs) zero p h = refl
filled-put_chunk (some s ∷ cs) zero p h = refl
filled-put_chunk (none ∷ cs) (suc i) p h = filled-put_chunk cs i p (omega arith)
filled-put_chunk (some s ∷ cs) (suc i) p h = ground (arith, filled-put_chunk cs i p (omega arith))

pub put_chunk-Agrees :
    (ps : List String) (cs : List (Option String)) (i : ℕ) (p : String)
    → Agrees ps cs
    → part_at ps i ≡ some p
    → Agrees ps (put_chunk cs i p)
unfolding put_chunk
put_chunk-Agrees [] [] i p h e = tt
put_chunk-Agrees [] (c ∷ cs) i p h e = absurd h
put_chunk-Agrees (q ∷ ps) [] i p h e = absurd h
put_chunk-Agrees (q ∷ ps) (none ∷ cs) zero p h e = (cc, h)
put_chunk-Agrees (q ∷ ps) (some s ∷ cs) zero p h e = (cc, h.1)
put_chunk-Agrees (q ∷ ps) (none ∷ cs) (suc i) p h e = put_chunk-Agrees ps cs i p h e
put_chunk-Agrees (q ∷ ps) (some s ∷ cs) (suc i) p h e = (h.0, put_chunk-Agrees ps cs i p h.1 e)

pub Agrees-length :
    (ps : List String) (cs : List (Option String)) → Agrees ps cs → length cs ≡ length ps
Agrees-length [] [] h = refl
Agrees-length [] (c ∷ cs) h = absurd h
Agrees-length (p ∷ ps) [] h = absurd h
Agrees-length (p ∷ ps) (none ∷ cs) h = ap suc (Agrees-length ps cs h)
Agrees-length (p ∷ ps) (some s ∷ cs) h = ap suc (Agrees-length ps cs h.1)

-- Slots that are all filled join to the payload.
pub join_chunks-whole :
    (ps : List String) (cs : List (Option String))
    → Agrees ps cs
    → filled cs ≡ length cs
    → join_chunks cs ≡ whole ps
unfolding join_chunks
join_chunks-whole [] [] h e = refl
join_chunks-whole [] (c ∷ cs) h e = absurd h
join_chunks-whole (p ∷ ps) [] h e = absurd h
join_chunks-whole (p ∷ ps) (none ∷ cs) h e = absurd (omega (arith, filled-le cs))
join_chunks-whole (p ∷ ps) (some s ∷ cs) h e =
    rw (h.0, join_chunks-whole ps cs h.1 (omega arith)) refl

pub all_filled :
    (cs : List (Option String))
    → ((i : ℕ) → i < length cs → is_filled cs i ≡ true)
    → filled cs ≡ length cs
all_filled [] h = refl
all_filled (none ∷ cs) h = absurd (let e = h 0 (omega arith) in cc)
all_filled (some s ∷ cs) h = ap suc (all_filled cs (λ i below. h (suc i) (omega arith)))

pub filled_all :
    (cs : List (Option String)) (i : ℕ)
    → filled cs ≡ length cs
    → i < length cs
    → is_filled cs i ≡ true
filled_all [] i e h = absurd (omega arith)
filled_all (none ∷ cs) i e h = absurd (omega (arith, filled-le cs))
filled_all (some s ∷ cs) zero e h = refl
filled_all (some s ∷ cs) (suc i) e h = filled_all cs i (omega arith) (omega arith)
