-- ===== src/PortForwards/Told.antt =====
-- Which findings of each type the port forwards of a configuration get.
use zero_proof.Base.{
  ℕ, String, ◌≡◌, refl, sym, ◌∙◌, inl, inr, Bool, true, false, not, ◌||◌, Option, none, some, List,
  [], ◌∷◌, ◌++◌, arith, str_eq, eq_iff, ltb, ◌==◌, if◌then◌else◌, Bool-cases, or_else, length,
  concat_map,
}
use zero_proof.Base.Text.{is_empty}
use zero_proof.Base.Dict.{get}
use mathlib.Core.List.{append-nil}
use zero_proof.PortForwards.Called.{
  Told, type_code, told, told_if, told_of, risk_told, called_for, called_for_by_all,
}
use zero_proof.PortForwards.{
  PortForward, FindingType, Finding, Risk, risky_port_forward, unrestricted_port_forward,
  port_mapping_mismatch, port_forward_no_logging, excessive_port_forwards, risk_of, is_unrestricted,
  is_mismatched, is_unlogged, findings_on, findings_on_all, pushed_if, enabled_forwards,
  analyze_port_forwards, excessive_finding, risky_findings, risky_finding, unrestricted_finding,
  mismatch_finding, unlogged_finding, risky_ports, port_to_check,
}

told_of-append :
    (t : FindingType) (xs ys : List Finding) → told_of t (xs ++ ys) ≡ told_of t xs ++ told_of t ys
unfolding told_of
told_of-append t [] ys = refl
told_of-append t (x ∷ xs) ys = elim (Bool-cases (type_code x.type == type_code t)) [
  | inl h ↦ rw h (rw (told_of-append t xs ys) refl)
  | inr h ↦ rw h (told_of-append t xs ys)
]

-- What one finding tells under a type
abbrev one_told : FindingType → Finding → List Told
one_told t f = told_if (type_code f.type == type_code t) (told f)

told_of-pushed :
    (t : FindingType) (b : Bool) (f : Finding)
    → told_of t (pushed_if b f) ≡ (if b then one_told t f else [])
unfolding told_of
told_of-pushed t true f = elim (Bool-cases (type_code f.type == type_code t)) [
  | inl h ↦ rw h refl
  | inr h ↦ rw h refl
]
told_of-pushed t false f = refl

told_of-risky :
    (t : FindingType) (pf : PortForward) (o : Option Risk)
    → told_of t (risky_findings pf o) ≡ (if type_code t == 0 then risk_told pf o else [])
unfolding told_of risky_findings risky_finding type_code told
told_of-risky risky_port_forward pf none = refl
told_of-risky risky_port_forward pf (some r) = refl
told_of-risky unrestricted_port_forward pf none = refl
told_of-risky unrestricted_port_forward pf (some r) = refl
told_of-risky port_mapping_mismatch pf none = refl
told_of-risky port_mapping_mismatch pf (some r) = refl
told_of-risky port_forward_no_logging pf none = refl
told_of-risky port_forward_no_logging pf (some r) = refl
told_of-risky excessive_port_forwards pf none = refl
told_of-risky excessive_port_forwards pf (some r) = refl

told_of-parts :
    (t : FindingType) (pf : PortForward) (o : Option Risk) (u m l : Bool)
    → told_of t (
        risky_findings pf o
        ++ pushed_if u (unrestricted_finding pf)
        ++ pushed_if m (mismatch_finding pf)
        ++ pushed_if l (unlogged_finding pf))
      ≡ (if type_code t == 0 then risk_told pf o else [])
        ++ (if u then one_told t (unrestricted_finding pf) else [])
        ++ (if m then one_told t (mismatch_finding pf) else [])
        ++ (if l then one_told t (unlogged_finding pf) else [])
told_of-parts t pf o u m l =
    let a = risky_findings pf o in
    let b = pushed_if u (unrestricted_finding pf) in
    let c = pushed_if m (mismatch_finding pf) in
    let d = pushed_if l (unlogged_finding pf) in
    rw
      (
        told_of-append t (a ++ b ++ c) d,
        told_of-append t (a ++ b) c,
        told_of-append t a b,
        told_of-risky t pf o,
        told_of-pushed t u (unrestricted_finding pf),
        told_of-pushed t m (mismatch_finding pf),
        told_of-pushed t l (unlogged_finding pf),
      )
      refl

no_port : (s : String) → is_empty s ≡ true → get risky_ports s ≡ none
unfolding risky_ports get
no_port s h = rw ((eq_iff s "").0 h) refl

risk_of-eq : (pf : PortForward) → risk_of pf ≡ get risky_ports (port_to_check pf)
unfolding risk_of
risk_of-eq pf = elim (Bool-cases (is_empty (port_to_check pf))) [
  | inl h ↦ rw h (sym (no_port (port_to_check pf) h))
  | inr h ↦ rw h refl
]

unrestricted-eq :
    (o : Option String)
    → (elim o [ none ↦ true | some s ↦ is_empty s || str_eq s "any" ])
      ≡ (str_eq (or_else o "") "" || str_eq (or_else o "") "any")
unrestricted-eq none = refl
unrestricted-eq (some s) = refl

-- Nothing is told, whatever the test.
neither : (b : Bool) → if◌then◌else◌ {A = List Told} b [] [] ≡ []
neither true = refl
neither false = refl

parts-called_for :
    (t : FindingType) (pf : PortForward) (o : Option Risk) (u : Bool)
    → o ≡ get risky_ports (port_to_check pf)
    → u ≡ (str_eq (or_else pf.src "") "" || str_eq (or_else pf.src "") "any")
    → (if type_code t == 0 then risk_told pf o else [])
        ++ (if u then one_told t (unrestricted_finding pf) else [])
        ++ (if is_mismatched pf then one_told t (mismatch_finding pf) else [])
        ++ (if is_unlogged pf then one_told t (unlogged_finding pf) else [])
      ≡ called_for t pf
unfolding type_code unrestricted_finding mismatch_finding unlogged_finding told
parts-called_for risky_port_forward pf o u e e' =
    let ts = risk_told pf (get risky_ports (port_to_check pf)) in
    rw
      (
        e,
        neither u,
        neither (is_mismatched pf),
        neither (is_unlogged pf),
        append-nil ts,
        append-nil ts,
        append-nil ts,
      )
      refl
parts-called_for unrestricted_port_forward pf o u e e' =
    rw (neither (is_mismatched pf), neither (is_unlogged pf)) (rw e' (append-nil _ ∙ append-nil _))
parts-called_for port_mapping_mismatch pf o u e e' =
    rw (neither u, neither (is_unlogged pf)) (append-nil _)
parts-called_for port_forward_no_logging pf o u e e' =
    rw (neither u, neither (is_mismatched pf)) refl
parts-called_for excessive_port_forwards pf o u e e' =
    rw (neither u, neither (is_mismatched pf), neither (is_unlogged pf)) refl

told_of-guarded :
    (t : FindingType) (b : Bool) (fs : List Finding) (ts : List Told)
    → told_of t fs ≡ ts
    → told_of t (if not b then [] else fs) ≡ (if b then ts else [])
unfolding told_of
told_of-guarded t true fs ts h = h
told_of-guarded t false fs ts h = refl

told_of-findings_on :
    (t : FindingType) (pf : PortForward)
    → told_of t (findings_on pf) ≡ (if pf.enabled then called_for t pf else [])
unfolding findings_on is_unrestricted
told_of-findings_on t pf = told_of-guarded t pf.enabled _ _ (
    told_of-parts t pf (risk_of pf) (is_unrestricted pf) (is_mismatched pf) (is_unlogged pf)
    ∙ parts-called_for t pf _ _ (risk_of-eq pf) (unrestricted-eq pf.src))

told_of-loop :
    (t : FindingType) (pfs : List PortForward)
    → told_of t (findings_on_all pfs) ≡ concat_map (called_for t) (enabled_forwards pfs)
unfolding findings_on_all told_of
told_of-loop t [] = refl
told_of-loop t (pf ∷ pfs) =
    told_of-append t (findings_on pf) (findings_on_all pfs)
    ∙ rw (told_of-findings_on t pf, told_of-loop t pfs) (spread pf.enabled)
  where
    spread :
        (b : Bool)
        → (if b then called_for t pf else []) ++ concat_map (called_for t) (enabled_forwards pfs)
          ≡ concat_map
              (called_for t)
              (if b then pf ∷ enabled_forwards pfs else enabled_forwards pfs)
    spread true = refl
    spread false = refl

told_of-excessive :
    (t : FindingType) (n : ℕ)
    → told_of t (pushed_if (ltb 10 n) (excessive_finding n)) ≡ called_for_by_all t n
unfolding excessive_finding type_code told
told_of-excessive risky_port_forward n = told_of-pushed _ (ltb 10 n) _ ∙ ground arith
told_of-excessive unrestricted_port_forward n = told_of-pushed _ (ltb 10 n) _ ∙ ground arith
told_of-excessive port_mapping_mismatch n = told_of-pushed _ (ltb 10 n) _ ∙ ground arith
told_of-excessive port_forward_no_logging n = told_of-pushed _ (ltb 10 n) _ ∙ ground arith
told_of-excessive excessive_port_forwards n = told_of-pushed _ (ltb 10 n) _

-- In findings of each type the analyzer tells exactly the type, severity, title and resource that
-- each enabled port forward calls for by its ports, its source and its logging, in the order of the
-- list, and after them what more than ten enabled ones call for; a disabled one calls for nothing.
pub analyze_port_forwards-told :
    (t : FindingType) (pfs : List PortForward)
    → told_of t (analyze_port_forwards pfs)
      ≡ concat_map (called_for t) (enabled_forwards pfs)
        ++ called_for_by_all t (length (enabled_forwards pfs))
unfolding analyze_port_forwards
analyze_port_forwards-told t pfs =
    told_of-append t (findings_on_all pfs) _
    ∙ rw (told_of-loop t pfs, told_of-excessive t (length (enabled_forwards pfs))) refl
