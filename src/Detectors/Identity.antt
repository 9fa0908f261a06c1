-- ===== src/Detectors/Identity.antt =====
-- detectors/identity.ts: the identity of the machine behind an event, and the keys made of it. The
-- platform is a parameter: `isIP` of node:net, the host name of a URL, `JSON.stringify` of an array of
-- texts and nulls, the hexadecimal SHA-256 digest and `Date.toISOString`.
pub mod Parsing
pub mod Laws
use zero_proof.Base.{
  ℕ, ◌+◌, ◌-◌, ◌*◌, ◌/◌, ◌%◌, String, append, Bool, true, not, ◌&&◌, ◌||◌, Option, none, some, List,
  [], ◌∷◌, str_eq, leb, ◌==◌, if◌then◌else◌, is_some, length, all,
}
use Prim.Native.Char.{Char, code}
use Prim.Native.String.{count}
use zero_proof.Base.Text.{to_lower_case, trim, split, join, includes, concat, show, is_empty}

pub record Platform : Type 0 where
  pub is_ip : String → ℕ
  pub url_host : String → String
  pub stringify : List (Option String) → String
  pub sha256_hex : String → String
  pub to_iso : ℕ → String

pub data SourceKind : Type 0 where
  unifi adguard : SourceKind

abbrev pub source_text : SourceKind → String
source_text unifi = "unifi"
source_text adguard = "adguard"

-- `DetectorIdentity`, of version 2
pub record DetectorIdentity : Type 0 where
  pub source_kind : SourceKind
  pub connection_id : Option String
  pub scope_id : Option String
  pub src_ip : Option String
  pub src_mac : Option String
  pub event_id : String
  pub observed_at : Option String

-- `DetectorIdentityInput`, whose times are those of rows
pub record DetectorIdentityInput : Type 0 where
  pub source_kind : SourceKind
  pub connection_id : Option String
  pub scope_id : Option String
  pub src_ip : Option String
  pub src_mac : Option String
  pub event_id : String
  pub observed_at : Option ℕ

-- `nonempty`
pub trimmed : Option String → Option String
trimmed none = none
trimmed (some s) = if is_empty (trim s) then none else some (trim s)

is_lower_hex : Char → Bool
is_lower_hex c = (leb 48 (code c) && leb (code c) 57) || (leb b'a' (code c) && leb (code c) b'f')

is_hex : Char → Bool
is_hex c = is_lower_hex c || (leb b'A' (code c) && leb (code c) b'F')

all_chars : (Char → Bool) → String → Bool
all_chars p String.[] = true
all_chars p (String.◌∷◌ c s) = p c && all_chars p s

hex_run : ℕ → String → Bool
hex_run width s = count s == width && all_chars is_hex s

hex_groups : ℕ → ℕ → List String → Bool
hex_groups n width parts = length parts == n && all (hex_run width) parts

-- The four spellings of the regular expression
is_mac : String → Bool
is_mac s =
    hex_run 12 s
    || hex_groups 6 2 (split b':' s)
    || hex_groups 6 2 (split b'-' s)
    || hex_groups 3 4 (split b'.' s)

is_separator : Char → Bool
is_separator c = code c == b':' || code c == b'.' || code c == b'-'

without_separators : String → String
without_separators String.[] = ""
without_separators (String.◌∷◌ c s) =
    let rest = without_separators s in if is_separator c then rest else String.◌∷◌ c rest

-- `digits.match(/.{2}/g)`
pairs : String → List String
pairs (String.◌∷◌ a (String.◌∷◌ b s)) = String.◌∷◌ a (String.◌∷◌ b "") ∷ pairs s
pairs _ = []

mac_of_digits : String → Option String
mac_of_digits digits =
    if str_eq digits "000000000000" || str_eq digits "ffffffffffff"
    then none
    else some (join ":" (pairs digits))

mac_from : Option String → Option String
mac_from none = none
mac_from (some s) = if is_mac s then mac_of_digits (to_lower_case (without_separators s)) else none

pub normalize_mac : Option String → Option String
unfolding mac_from
normalize_mac value = mac_from (trimmed value)

-- `parseInt(s, 16)` of lower-case digits
hex_digit : ℕ → ℕ
hex_digit c = if leb c 57 then c - 48 else c - 87

hex_from : ℕ → String → ℕ
hex_from acc String.[] = acc
hex_from acc (String.◌∷◌ c s) = hex_from (acc * 16 + hex_digit (code c)) s

is_hex_word : String → Bool
is_hex_word s = not (is_empty s) && all_chars is_lower_hex s

dotted : ℕ → ℕ → String
dotted high low =
    join "." (show (high / 256) ∷ show (high % 256) ∷ show (low / 256) ∷ show (low % 256) ∷ [])

-- `/^::ffff:([\da-f]+):([\da-f]+)$/`: the colons split such a text into five parts.
unmapped : List String → String → String
unmapped (a ∷ b ∷ c ∷ high ∷ low ∷ []) canonical =
    if is_empty a && is_empty b && str_eq c "ffff" && is_hex_word high && is_hex_word low
    then dotted (hex_from 0 high) (hex_from 0 low)
    else canonical
unmapped _ canonical = canonical

module _ (platform : Platform) where
  ip_from : Option String → Option String
  ip_from none = none
  ip_from (some ip) =
      let canonical = platform.url_host ip in
      if platform.is_ip ip == 4
      then some ip
      else if platform.is_ip ip == 6 && not (includes ip "%")
      then some (unmapped (split b':' canonical) canonical)
      else none

  pub normalize_ip : Option String → Option String
  unfolding ip_from
  normalize_ip value = ip_from (trimmed value)

  iso_of : Option ℕ → Option String
  iso_of none = none
  iso_of (some t) = some (platform.to_iso t)

  identity_with : DetectorIdentityInput → Option String → Option DetectorIdentity
  unfolding iso_of
  identity_with i none = none
  identity_with i (some event) = some record {
    source_kind = i.source_kind;
    connection_id = trimmed i.connection_id;
    scope_id = trimmed i.scope_id;
    src_ip = normalize_ip i.src_ip;
    src_mac = normalize_mac i.src_mac;
    event_id = event;
    observed_at = iso_of i.observed_at;
  }

  -- `createDetectorIdentity`; `none` is the error of an event without an id.
  pub create_detector_identity : DetectorIdentityInput → Option DetectorIdentity
  unfolding identity_with
  create_detector_identity i = identity_with i (trimmed (some i.event_id))

  pub identity_scope_key : DetectorIdentity → String
  identity_scope_key i =
      let incomplete =
        not (is_some i.connection_id)
        || (str_eq (source_text i.source_kind) "unifi" && not (is_some i.scope_id)) in
      platform.stringify (
        some (source_text i.source_kind)
        ∷ i.connection_id
        ∷ i.scope_id
        ∷ (if incomplete then some i.event_id else none)
        ∷ [])

  pub device_identity_key : DetectorIdentity → String
  device_identity_key i = elim i.src_mac [
    | some mac ↦ append "mac:" mac
    | none ↦ elim i.src_ip [ some ip ↦ append "ip:" ip | none ↦ append "event:" i.event_id ]
  ]

  pub scoped_device_key : DetectorIdentity → String
  scoped_device_key i =
      platform.stringify (some (identity_scope_key i) ∷ some (device_identity_key i) ∷ [])

  pub detector_fingerprint : String → DetectorIdentity → Option String → String
  detector_fingerprint detector i indicator = concat (
      detector
      ∷ ":v2:"
      ∷ platform.sha256_hex (platform.stringify (some (scoped_device_key i) ∷ indicator ∷ []))
      ∷ [])
