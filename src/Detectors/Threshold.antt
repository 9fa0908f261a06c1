-- ===== src/Detectors/Threshold.antt =====
-- The thresholds that detectors read from the environment: a positive number, or a default. The
-- function stands in repeatingThreat.ts, internalScanning.ts and highEgressVolume.ts alike.
use zero_proof.Base.{ℕ, String, Option, none, some, ◌<◌, ltb, if◌then◌else◌, arith}
use zero_proof.Base.Text.{number}
use zero_proof.Detectors.{Env, env_value}

positive_or : ℕ → Option ℕ → ℕ
positive_or fallback none = fallback
positive_or fallback (some n) = if ltb 0 n then n else fallback

read_threshold : ℕ → Option String → ℕ
read_threshold fallback none = fallback
read_threshold fallback (some raw) = positive_or fallback (number raw)

unfoldable pub threshold : Env → String → ℕ → ℕ
unfolding positive_or read_threshold
threshold env name fallback = read_threshold fallback (env_value env name)

positive_or-pos : (d : ℕ) (o : Option ℕ) → 0 < d → 0 < positive_or d o
unfolding positive_or
positive_or-pos d none h = h
positive_or-pos d (some n) h = ground arith

read_threshold-pos : (d : ℕ) (o : Option String) → 0 < d → 0 < read_threshold d o
unfolding read_threshold
read_threshold-pos d none h = h
read_threshold-pos d (some raw) h = positive_or-pos d (number raw) h

-- Whatever the environment says, a threshold with a positive default is positive.
pub threshold-pos : (env : Env) (name : String) (d : ℕ) → 0 < d → 0 < threshold env name d
unfolding threshold
threshold-pos env name d h = read_threshold-pos d (env_value env name) h
