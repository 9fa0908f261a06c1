-- ===== src/Rules/Template/Laws.antt =====
-- What a template's parts spell, and a template with names that have no value.
use zero_proof.Base.{
  String, append, ◌≡◌, refl, sym, ap, ◌∙◌, inl, inr, true, List, [], ◌∷◌, ◌++◌, map, arith, ◌==◌,
  Bool-cases, All,
}
use Prim.Native.Char.{Char, code}
use text.Mathlib.TextLemmas.{append-nil, nil-append, cons-append, append_assoc}
use text.Mathlib.TextEquality.{Char-path}
use zero_proof.Base.Text.{concat}
use zero_proof.Rules.Value.{Fields, field_at, undefined}
use zero_proof.Rules.Template.{
  Part, literal, hole, Scan, outside, one_brace, two_braces, in_name, closing, pending, one,
  give_up, step, parts_from, parts_of, source_of, filled, render, interpolate_template, is_word,
}

written : List Part → String
written ps = concat (map source_of ps)

written-append : (ps qs : List Part) → written (ps ++ qs) ≡ append (written ps) (written qs)
unfolding written concat
written-append [] qs = sym (nil-append (written qs))
written-append (p ∷ ps) qs =
    ap (append (source_of p)) (written-append ps qs)
    ∙ sym (append_assoc (source_of p) (written ps) (written qs))

-- What has been written and what is pending are what was pending and the character.
Keeps : Scan → Char → List Part × Scan → Type 0
Keeps st c next = append (written next.0) (pending next.1) ≡ append (pending st) (one c)

is_brace : (c : Char) → (code c == b'{') ≡ true → one c ≡ "{"
unfolding one
is_brace c h = ap (λ d. String.◌∷◌ d "") (Char-path c "{" (ground arith))

is_closing : (c : Char) → (code c == b'}') ≡ true → one c ≡ "}"
unfolding one
is_closing c h = ap (λ d. String.◌∷◌ d "") (Char-path c "}" (ground arith))

give_up-Keeps : (st : Scan) (c : Char) → Keeps st c (give_up st c)
unfolding Keeps give_up written concat source_of pending
give_up-Keeps st c = elim (Bool-cases (code c == b'{')) [
  | inl h ↦ rw h (rw (append-nil (pending st), is_brace c h) refl)
  | inr h ↦ rw h (rw (append-nil (one c), append-nil (append (pending st) (one c))) refl)
]

step-Keeps : (st : Scan) (c : Char) → Keeps st c (step st c)
unfolding Keeps step written concat source_of pending
step-Keeps outside c = give_up-Keeps outside c
step-Keeps one_brace c = elim (Bool-cases (code c == b'{')) [
  | inl h ↦ rw h (rw (is_brace c h) refl)
  | inr h ↦ rw h (give_up-Keeps one_brace c)
]
step-Keeps two_braces c = elim (Bool-cases (is_word c)) [
  | inl w ↦ rw w (nil-append (append "{{" (one c)))
  | inr w ↦ rw w (elim (Bool-cases (code c == b'{')) [
    | inl h ↦ rw h (rw (is_brace c h) refl)
    | inr h ↦ rw h (give_up-Keeps two_braces c)
  ])
]
step-Keeps (in_name n) c = elim (Bool-cases (is_word c)) [
  | inl w ↦ rw w (nil-append (append "{{" (append n (one c))) ∙ sym (append_assoc "{{" n (one c)))
  | inr w ↦ rw w (elim (Bool-cases (code c == b'}')) [
    | inl h ↦ rw h (
        rw (is_closing c h)
          (nil-append (append "{{" (append n "}")) ∙ sym (append_assoc "{{" n "}")))
    | inr h ↦ rw h (give_up-Keeps (in_name n) c)
  ])
]
step-Keeps (closing n) c = elim (Bool-cases (code c == b'}')) [
  | inl h ↦ rw h (
      rw (is_closing c h) (
        append-nil _
        ∙ append-nil _
        ∙ ap (append "{{") (sym (append_assoc n "}" "}"))
        ∙ sym (append_assoc "{{" (append n "}") "}")))
  | inr h ↦ rw h (give_up-Keeps (closing n) c)
]

one-append : (c : Char) (s : String) → append (one c) s ≡ String.◌∷◌ c s
unfolding one
one-append c s = cons-append c "" s ∙ ap (String.◌∷◌ c) (nil-append s)

-- The parts spell what was pending and the text.
written-parts_from : (st : Scan) (s : String) → written (parts_from st s) ≡ append (pending st) s
unfolding parts_from Keeps written concat source_of
written-parts_from st String.[] = refl
written-parts_from st (String.◌∷◌ c s) =
    let now = step st c in
    written-append now.0 (parts_from now.1 s)
    ∙ ap (append (written now.0)) (written-parts_from now.1 s)
    ∙ sym (append_assoc (written now.0) (pending now.1) s)
    ∙ ap (λ t. append t s) (step-Keeps st c)
    ∙ append_assoc (pending st) (one c) s
    ∙ ap (append (pending st)) (one-append c s)

-- A name of the template that neither the item nor the context has
abbrev pub IsUnknown : Fields → Fields → Part → Type 0
IsUnknown item context (literal s) = Unit
IsUnknown item context (hole k) = (field_at item k ≡ undefined) × (field_at context k ≡ undefined)

render-unknown :
    (item context : Fields) (ps : List Part)
    → All (IsUnknown item context) ps
    → concat (map (render item context) ps) ≡ written ps
unfolding render written filled concat source_of
render-unknown item context [] h = refl
render-unknown item context (literal s ∷ ps) h = ap (append s) (render-unknown item context ps h.1)
render-unknown item context (hole k ∷ ps) h =
    rw (h.0.0, h.0.1) (ap (append (source_of (hole k))) (render-unknown item context ps h.1))

-- A template whose names have no value, neither in the item nor in the context, is left as it is.
pub interpolate_template-unknown :
    (template : String) (item context : Fields)
    → All (IsUnknown item context) (parts_of template)
    → interpolate_template template item context ≡ template
unfolding interpolate_template parts_of pending
interpolate_template-unknown template item context h =
    render-unknown item context (parts_of template) h
    ∙ written-parts_from outside template
    ∙ nil-append template
