-- ===== src/Tests/PortForwards.antt =====
-- Telnet open to anyone, and a forward that is switched off.
use zero_proof.Base.{◌≡◌, true, false, none, List, [], ◌∷◌, ◌++◌, concat_map}
use zero_proof.PortForwards.{PortForward, risky_port_forward, analyze_port_forwards}
use zero_proof.PortForwards.Called.{told_of, called_for, called_for_by_all}
use zero_proof.PortForwards.Told.{analyze_port_forwards-told}

abbrev telnet : PortForward
telnet = record {
  name = "telnet";
  enabled = true;
  src = none;
  dst_port = "23";
  fwd = "10.0.0.5";
  fwd_port = "23";
  log = none;
}

abbrev forwards : List PortForward
forwards = telnet ∷ record telnet { enabled = false } ∷ []

analyze_port_forwards-told_example :
    told_of risky_port_forward (analyze_port_forwards forwards)
    ≡ concat_map (called_for risky_port_forward) (telnet ∷ [])
      ++ called_for_by_all risky_port_forward 1
analyze_port_forwards-told_example = analyze_port_forwards-told risky_port_forward forwards
