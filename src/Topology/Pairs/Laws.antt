-- ===== src/Topology/Pairs/Laws.antt =====
-- Keys of pairs tell pairs apart, and what a pair has become after a list of applications.
use zero_proof.Base.{
  String, append, ◌≡◌, refl, sym, ap, ◌∙◌, inl, inr, Bool, true, false, not, ◌&&◌, Option, none,
  some, List, [], ◌∷◌, ◌++◌, map, arith, str_eq, eq_iff, ◌==◌, if◌then◌else◌, Bool-cases, or_option,
  keep,
}
use zero_proof.Base.Dict.{Dict, get, get-set}
use Prim.Native.Char.{code, Char}
use text.Mathlib.TextLemmas.{
  head-eq_of_cons-eq, tail-eq_of_cons-eq, append-nil, nil-append, cons-append,
}
use Prim.Native.Char.{code, Char}
use zero_proof.Base.Groups.{is_key}
use mathlib.Core.List.{append_assoc, append-nil as list_append-nil}
use zero_proof.Topology.Pairs.{Pair, get_pair_key, put_met, apply_all, apply_one, Application, met}

-- An id without a colon
abbrev pub is_plain : String → Bool
is_plain String.[] = true
is_plain (String.◌∷◌ c s) = not (code c == b':') && is_plain s

cons-inj : (x y : Char) (s t : String) → String.◌∷◌ x s ≡ String.◌∷◌ y t → (x ≡ y) × (s ≡ t)
cons-inj x y s t e = (head-eq_of_cons-eq e, tail-eq_of_cons-eq e)

key_nil : (b : String) → get_pair_key "" b ≡ String.◌∷◌ ":" b
unfolding zero_proof.Base.Text.concat
key_nil b =
    rw (nil-append (append ":" (append b "")), append-nil b)
      (cons-append ":" "" b ∙ ap (λ s. String.◌∷◌ ":" s) (nil-append b))

key_cons :
    (x : Char) (a b : String) → get_pair_key (String.◌∷◌ x a) b ≡ String.◌∷◌ x (get_pair_key a b)
unfolding zero_proof.Base.Text.concat
key_cons x a b = cons-append x a (append ":" (append b ""))

pub get_pair_key-inj :
    (a b c d : String)
    → is_plain a ≡ true
    → is_plain c ≡ true
    → get_pair_key a b ≡ get_pair_key c d
    → (a ≡ c) × (b ≡ d)
unfolding zero_proof.Base.Text.concat
get_pair_key-inj String.[] b String.[] d pa pc e =
    (refl, (cons-inj ":" ":" b d (sym (key_nil b) ∙ e ∙ key_nil d)).1)
get_pair_key-inj String.[] b (String.◌∷◌ y c) d pa pc e =
    let h : 58 ≡ code y =
      ap code (cons-inj ":" y b (get_pair_key c d) (sym (key_nil b) ∙ e ∙ key_cons y c d)).0 in
    absurd (ground (arith, pc))
get_pair_key-inj (String.◌∷◌ x a) b String.[] d pa pc e =
    let h : code x ≡ 58 =
      ap code (cons-inj x ":" (get_pair_key a b) d (sym (key_cons x a b) ∙ e ∙ key_nil d)).0 in
    absurd (ground (arith, pa))
get_pair_key-inj (String.◌∷◌ x a) b (String.◌∷◌ y c) d pa pc e =
    let (h, t) =
      cons-inj x y (get_pair_key a b) (get_pair_key c d)
        (sym (key_cons x a b) ∙ e ∙ key_cons y c d) in
    let (p, q) = get_pair_key-inj a b c d (ground (arith, pa)) (ground (arith, pc)) t in
    (rw (h, p), q)

-- What a pair has become after the applications that meet it
abbrev pub amended : Pair → List Application → Pair
amended p [] = p
amended p (a ∷ later) = amended (met p a) later

abbrev amended_at : Option Pair → List Application → Option Pair
amended_at none as' = none
amended_at (some p) as' = some (amended p as')

-- Whether an application is about the pair with the key
abbrev pub is_about : String → Application → Bool
is_about k a =
    is_key k (if str_eq a.src_id a.dst_id then none else some (get_pair_key a.src_id a.dst_id))

get-put_met :
    (m : Dict Pair) (j k : String) (a : Application)
    → get (put_met m j a (get m j)) k
      ≡ (if str_eq j k then amended_at (get m k) (a ∷ []) else get m k)
unfolding put_met
get-put_met m j k a = at_entry (get m j) refl
  where
    at_entry :
        (o : Option Pair)
        → get m j ≡ o
        → get (put_met m j a o) k ≡ (if str_eq j k then amended_at (get m k) (a ∷ []) else get m k)
    at_entry none e = elim (Bool-cases (str_eq j k)) [
      | inl same ↦ rw same (rw (← (eq_iff j k).0 same) (rw e refl))
      | inr other ↦ rw other refl
    ]
    at_entry (some p) e = rw (get-set m j k (met p a)) (elim (Bool-cases (str_eq j k)) [
      | inl same ↦ rw same (rw (← (eq_iff j k).0 same) (rw e refl))
      | inr other ↦ rw other refl
    ])

get-apply_one :
    (m : Dict Pair) (a : Application) (k : String)
    → get (apply_one m a) k ≡ (if is_about k a then amended_at (get m k) (a ∷ []) else get m k)
unfolding apply_one
get-apply_one m a k = elim (Bool-cases (str_eq a.src_id a.dst_id)) [
  | inl same ↦ rw same refl
  | inr other ↦ rw other (get-put_met m (get_pair_key a.src_id a.dst_id) k a)
]

-- The entry of a pair is amended by the applications about it, in their order.
pub get-apply_all :
    (m : Dict Pair) (as' : List Application) (k : String)
    → get (apply_all m as') k ≡ amended_at (get m k) (keep (is_about k) as')
unfolding apply_all
get-apply_all m [] k = unchanged (get m k)
  where
    unchanged : (o : Option Pair) → o ≡ amended_at o []
    unchanged none = refl
    unchanged (some p) = refl
get-apply_all m (a ∷ later) k =
    get-apply_all (apply_one m a) later k
    ∙ rw (get-apply_one m a k) (split (is_about k a) (get m k))
  where
    split :
        (b : Bool) (o : Option Pair)
        → amended_at (if b then amended_at o (a ∷ []) else o) (keep (is_about k) later)
          ≡ amended_at o (if b then a ∷ keep (is_about k) later else keep (is_about k) later)
    split true none = refl
    split true (some p) = refl
    split false o = refl

-- The verdict of the first of some applications
abbrev pub first_verdict : List Application → Option Bool
first_verdict [] = none
first_verdict (a ∷ later) = some a.allows

-- The first application decides where nothing did before; the isolation stays.
pub amended-verdict :
    (p : Pair) (as' : List Application)
    → (amended p as').forward_allowed ≡ or_option p.forward_allowed (first_verdict as')
unfolding met
amended-verdict p [] = ground arith
amended-verdict p (a ∷ later) = ground (arith, amended-verdict (met p a) later)

pub amended-blocked :
    (p : Pair) (as' : List Application)
    → (amended p as').blocked_by_isolation ≡ p.blocked_by_isolation
unfolding met
amended-blocked p [] = refl
amended-blocked p (a ∷ later) = amended-blocked (met p a) later

pub amended-rules :
    (p : Pair) (as' : List Application) → (amended p as').rules ≡ p.rules ++ map (λ a. a.info) as'
unfolding met
amended-rules p [] = sym (list_append-nil p.rules)
amended-rules p (a ∷ later) =
    amended-rules (met p a) later ∙ append_assoc p.rules (a.info ∷ []) (map (λ b. b.info) later)
