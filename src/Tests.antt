-- ===== src/Tests.antt =====
-- The theorems applied at concrete inputs: the parameters of the models, filled.
mod Detectors
mod Detection
mod Reachability
mod Runner
mod Dns
mod Regions
mod PortForwards
mod Topology
mod Execution
mod Ioc
mod Results
mod Correlation
mod Firewall
use zero_proof.Base.{
  ℕ, String, ◌≡◌, refl, inl, inr, Bool, true, Option, none, some, List, [], ◌∷◌, str_eq,
  if◌then◌else◌, Bool-cases, All, keep,
}
use zero_proof.Detection.{DetectorContext}
use zero_proof.Detection.Table.{Row, Table, unless, updated}
use zero_proof.Detectors.{Rows, Env, Flow}

-- Stored rows, in memory
pub keep-All {ℓ} : {A : Type ℓ} (p : A → Bool) (xs : List A) → All (λ a. p a ≡ true) (keep p xs)
keep-All p [] = tt
keep-All p (x ∷ xs) = elim (Bool-cases (p x)) [
  | inl h ↦ rw h (h, keep-All p xs)
  | inr h ↦ rw h (keep-All p xs)
]

abbrev pub stored : {A : Type 0} → List A → Rows A
stored xs = record { find_many = λ p. keep p xs; find_many-All = λ p. keep-All p xs }

-- An environment with one variable
abbrev pub one_variable : String → String → Env
one_variable name value asked = if str_eq asked name then some value else none

abbrev pub hour : DetectorContext
hour = record { begin_time = 0; end_time = 3600000 }

abbrev pub flow_to : (id : String) (action dst_ip : String) (dst_port : ℕ) → Flow
flow_to id action dst_ip dst_port = record {
  id = id;
  occurred_at = 1000;
  action = some action;
  src_mac = some "de:ad:be:ef:00:01";
  src_ip = some "10.0.0.7";
  src_client_name = some "camera";
  dst_ip = some dst_ip;
  dst_mac = none;
  dst_port = some dst_port;
  dst_region = none;
  bytes_total = some 700000000;
}

-- A table in memory, as the function from fingerprints to rows
abbrev pub memory : Table (String → Option Row)
memory = record {
  find_unique = λ s k. s k;
  update = λ s k f j. if str_eq k j then updated f (s j) else s j;
  create = λ s r j. if str_eq r.fingerprint j then some r else s j;
  delete_many = λ s p. (λ k. unless p (s k), 0);
  find-update = λ s k j f h. refl;
  find-create = λ s r j h. refl;
  find-delete_many = λ s p j. refl;
}

abbrev pub empty_memory : String → Option Row
empty_memory k = none
