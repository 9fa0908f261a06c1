-- ===== src/Detectors/IocMatch/Merging.antt =====
-- The evidence of a finding: no item twice, and the number of events among the items.
use zero_proof.Base.{
  suc, String, ◌≡◌, refl, sym, ap, inl, inr, false, Option, none, some, List, [], ◌∷◌, ◌++◌, map,
  arith, str_eq, eq_iff, if◌then◌else◌, Bool-cases, or_else, length, All, keep, has, any-append,
}
use zero_proof.Base.Dict.{Dict, get, set-All, get-All}
use zero_proof.Base.Text.{concat}
use zero_proof.Detection.{Evidence}
use zero_proof.Detectors.ThreatIntel.{Hit}
use zero_proof.Detectors.Identity.{Platform, detector_fingerprint}
use zero_proof.Detectors.IocMatch.{
  Accumulator, Match, add_hits, observe, add_evidence, fresh, merged, merge_indicators,
  merge_finding, indicators, is_source, feed_evidence, kind_text,
}

-- No key comes again.
abbrev pub NoRepeat : List String → Type 0
NoRepeat [] = Unit
NoRepeat (k ∷ ks) = (has ks k ≡ false) × NoRepeat ks

NoRepeat-append :
    (ks : List String) (k : String) → NoRepeat ks → has ks k ≡ false → NoRepeat (ks ++ k ∷ [])
NoRepeat-append [] k h new = (refl, tt)
NoRepeat-append (j ∷ ks) k h new = (
  ground (arith, any-append (λ x. str_eq x j) ks (k ∷ []), eq_iff j k, eq_iff k j),
  NoRepeat-append ks k h.1 (ground (arith, new)),
)

map-append_one {ℓ κ} :
    {A : Type ℓ} {B : Type κ} (f : A → B) (xs : List A) (x : A)
    → map f (xs ++ x ∷ []) ≡ map f xs ++ f x ∷ []
map-append_one f [] x = refl
map-append_one f (y ∷ ys) x = ap (λ zs. f y ∷ zs) (map-append_one f ys x)

length-keep_one :
    (es : List Evidence) (e : Evidence)
    → length (keep is_source (es ++ e ∷ []))
      ≡ (if is_source e then suc (length (keep is_source es)) else length (keep is_source es))
length-keep_one [] e = elim (Bool-cases (is_source e)) [ inl h ↦ rw h refl | inr h ↦ rw h refl ]
length-keep_one (d ∷ es) e = elim (Bool-cases (is_source d)) [
  | inl h ↦ rw h (ground (arith, length-keep_one es e))
  | inr h ↦ rw h (length-keep_one es e)
]

module _ (evidence_key : Evidence → String) where
  abbrev pub IsCounted : Accumulator → Type 0
  IsCounted a =
      (a.source_event_count ≡ length (keep is_source a.evidence))
      × (a.evidence_keys ≡ map evidence_key a.evidence)
      × NoRepeat a.evidence_keys

  add_hits-IsCounted : (hs : List Hit) (a : Accumulator) → IsCounted a → IsCounted (add_hits a hs)
  unfolding add_hits
  add_hits-IsCounted [] a c = c
  add_hits-IsCounted (h ∷ hs) a c = add_hits-IsCounted hs _ c

  observe-IsCounted : (a : Accumulator) (o : Option String) → IsCounted a → IsCounted (observe a o)
  unfolding observe
  observe-IsCounted a none c = c
  observe-IsCounted a (some t) c = c

  module _ (platform : Platform) where
    add_evidence-IsCounted :
        (es : List Evidence) (a : Accumulator)
        → IsCounted a
        → IsCounted (add_evidence platform evidence_key a es)
    unfolding add_evidence
    add_evidence-IsCounted [] a c = c
    add_evidence-IsCounted (e ∷ es) a c = elim (Bool-cases (has a.evidence_keys (evidence_key e))) [
      | inl there ↦ rw there (add_evidence-IsCounted es a c)
      | inr new ↦ rw new (
          add_evidence-IsCounted es _ (
            rw (c.0) (sym (length-keep_one a.evidence e)),
            rw (c.1) (sym (map-append_one evidence_key a.evidence e)),
            NoRepeat-append a.evidence_keys (evidence_key e) c.2 new,
          ))
    ]

    abbrev pub IsCountedEntry : String × Accumulator → Type 0
    IsCountedEntry entry = IsCounted entry.1

    prior-IsCounted :
        (m : Match) (fingerprint value : String) (prior : Option Accumulator)
        → ((a : Accumulator) → prior ≡ some a → IsCounted a)
        → IsCounted (or_else prior (fresh platform evidence_key m fingerprint value))
    unfolding fresh
    prior-IsCounted m fingerprint value none h = (refl, refl, tt)
    prior-IsCounted m fingerprint value (some a) h = h a refl

    merged-IsCounted :
        (m : Match) (value : String) (hits : List Hit) (fingerprint : String)
        (prior : Option Accumulator)
        → ((a : Accumulator) → prior ≡ some a → IsCounted a)
        → IsCounted (merged platform evidence_key m value hits fingerprint prior)
    unfolding merged
    merged-IsCounted m value hits fingerprint prior h =
        let old = or_else prior (fresh platform evidence_key m fingerprint value) in
        add_evidence-IsCounted (m.evidence ∷ feed_evidence value hits)
          (observe (add_hits old hits) m.identity.observed_at)
          (observe-IsCounted (add_hits old hits) m.identity.observed_at
            (add_hits-IsCounted hits old (prior-IsCounted m fingerprint value prior h)))

    merge_indicators-IsCounted :
        (m : Match) (found_hits : Dict (List Hit)) (found : Dict Accumulator)
        → All IsCountedEntry found
        → All IsCountedEntry (merge_indicators platform evidence_key m found_hits found)
    unfolding merge_indicators
    merge_indicators-IsCounted m [] found h = h
    merge_indicators-IsCounted m ((value, hits) ∷ more) found h =
        let fingerprint =
          detector_fingerprint platform "ioc_match" m.identity
            (some (concat (kind_text m.kind ∷ ":" ∷ value ∷ []))) in
        merge_indicators-IsCounted m more _ (
          set-All IsCountedEntry found fingerprint _ h (
            merged-IsCounted m value hits fingerprint (get found fingerprint)
              (λ a e. get-All IsCountedEntry found fingerprint a h e)))

    pub merge_finding-IsCounted :
        (m : Match) (found : Dict Accumulator)
        → All IsCountedEntry found
        → All IsCountedEntry (merge_finding platform evidence_key m found)
    unfolding merge_finding
    merge_finding-IsCounted m found h =
        merge_indicators-IsCounted m (indicators platform evidence_key m) found h
