-- ===== src/DnsAllowlist.antt =====
-- services/dnsAllowlist.ts: the domains that detectors on DNS queries skip. Built-in categories can be
-- disabled, whole or by domain; the user's entries hold for all devices or for one.
pub mod Coverage
use zero_proof.Base.{
  String, append, Bool, false, not, ◌&&◌, ◌||◌, Option, none, some, List, [], ◌∷◌, if◌then◌else◌,
  or_else, any, has, include,
}
use zero_proof.Base.Dict.{Dict, get, set}
use zero_proof.Base.Text.{concat, to_lower_case, ends_with, without_final_dot, is_empty}

pub record BuiltInCategory : Type 0 where
  pub id : String
  pub label : String
  pub domains : List String

pub data Scope : Type 0 where
  global device : Scope

-- The columns of `dnsAllowlistEntry` that the snapshot reads
pub record UserEntry : Type 0 where
  pub parent_domain : String
  pub scope : Scope
  pub device_key : String

unfoldable pub builtin_key : String → String → String
builtin_key category_id domain = concat (category_id ∷ ":" ∷ domain ∷ [])

unfoldable pub builtin_category_key : String → String
builtin_category_key category_id = concat (category_id ∷ ":*" ∷ [])

-- The inner loop, over the domains of a category
add_domains : List String → String → List String → List String → List String
add_domains disabled id [] acc = acc
add_domains disabled id (d ∷ ds) acc =
    add_domains disabled id ds
      (if has disabled (builtin_key id d) then acc else include acc (to_lower_case d))

add_categories : List String → List BuiltInCategory → List String → List String
add_categories disabled [] acc = acc
add_categories disabled (c ∷ cs) acc = add_categories disabled cs (
    if has disabled (builtin_category_key c.id)
    then acc
    else add_domains disabled c.id c.domains acc)

pub active_built_in_domains : List BuiltInCategory → List String → List String
active_built_in_domains built_in disabled = add_categories disabled built_in []

pub record AllowlistSnapshot : Type 0 where
  pub global_domains : List String
  pub device_domains : Dict (List String)

-- `e.scope === 'DEVICE' && e.deviceKey`
pub is_for_device : UserEntry → Bool
is_for_device e = elim e.scope [ global ↦ false | device ↦ not (is_empty e.device_key) ]

add_entry : AllowlistSnapshot → UserEntry → AllowlistSnapshot
add_entry s e =
    let dom = to_lower_case e.parent_domain in
    let key = to_lower_case e.device_key in
    if is_for_device e
    then record s {
      device_domains =
          set s.device_domains key (include (or_else (get s.device_domains key) []) dom);
    }
    else record s { global_domains = include s.global_domains dom }

add_entries : AllowlistSnapshot → List UserEntry → AllowlistSnapshot
add_entries s [] = s
add_entries s (e ∷ es) = add_entries (add_entry s e) es

-- `loadAllowlistSnapshot`, given the built-in file, the disabled keys and the stored entries
pub load_allowlist_snapshot :
    List BuiltInCategory → List String → List UserEntry → AllowlistSnapshot
load_allowlist_snapshot built_in disabled entries =
    add_entries
      (record { global_domains = active_built_in_domains built_in disabled; device_domains = [] })
      entries

pub matches_suffix : String → List String → Bool
matches_suffix parent domains =
    has domains parent || any (λ d. ends_with parent (append "." d)) domains

device_matches : String → Option (List String) → Bool
device_matches p none = false
device_matches p (some domains) = matches_suffix p domains

for_key : String → Option String → AllowlistSnapshot → Bool
for_key p none s = false
for_key p (some key) s =
    not (is_empty key) && device_matches p (get s.device_domains (to_lower_case key))

pub is_allowlisted : String → Option String → AllowlistSnapshot → Bool
is_allowlisted parent device_key s =
    let p = without_final_dot (to_lower_case parent) in
    matches_suffix p s.global_domains || for_key p device_key s
