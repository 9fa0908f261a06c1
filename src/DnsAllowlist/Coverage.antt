-- ===== src/DnsAllowlist/Coverage.antt =====
-- The snapshot and its sets, seen as what they stand for: the entries that cover a domain.
use zero_proof.Base.{
  String, append, ◌≡◌, refl, ap, ◌∙◌, inl, inr, Bool, false, not, ◌&&◌, ◌||◌, Option, none, some,
  List, [], ◌∷◌, arith, str_eq, eq_iff, Bool-cases, or_else, any, has, include, any-include,
}
use zero_proof.Base.Dict.{get, set, get-set}
use zero_proof.Base.Text.{to_lower_case, ends_with, without_final_dot, is_empty}
use zero_proof.DnsAllowlist.{
  BuiltInCategory, matches_suffix, add_entry, builtin_category_key, add_categories,
  AllowlistSnapshot, add_entries, add_domains, UserEntry, is_for_device, builtin_key,
  is_allowlisted, device_matches, for_key, load_allowlist_snapshot, active_built_in_domains,
}

-- An entry covers its own domain and every subdomain of it.
abbrev pub covers : String → String → Bool
covers p d = str_eq d p || ends_with p (append "." d)

suffix-covers : (p : String) (ds : List String) → matches_suffix p ds ≡ any (covers p) ds
unfolding matches_suffix
suffix-covers p [] = refl
suffix-covers p (d ∷ ds) = ground (arith, suffix-covers p ds)

-- The built-in domains that are not disabled
abbrev pub by_built_ins : (String → Bool) → List BuiltInCategory → List String → Bool
by_built_ins f cats disabled =
    any
      (λ c.
        not (has disabled (builtin_category_key c.id))
        && any (λ d. not (has disabled (builtin_key c.id d)) && f (to_lower_case d)) c.domains)
      cats

module _ (f : String → Bool) (disabled : List String) where
  any-add_domains :
      (id : String) (ds acc : List String)
      → any f (add_domains disabled id ds acc)
        ≡ (any f acc || any (λ d. not (has disabled (builtin_key id d)) && f (to_lower_case d)) ds)
  unfolding add_domains
  any-add_domains id [] acc = ground arith
  any-add_domains id (d ∷ ds) acc = elim (Bool-cases (has disabled (builtin_key id d))) [
    | inl off ↦ rw off (any-add_domains id ds acc)
    | inr on ↦ rw on (
        ground (
          arith,
          any-add_domains id ds (include acc (to_lower_case d)),
          any-include f acc (to_lower_case d),
        ))
  ]

  any-add_categories :
      (cs : List BuiltInCategory) (acc : List String)
      → any f (add_categories disabled cs acc) ≡ (any f acc || by_built_ins f cs disabled)
  unfolding add_categories
  any-add_categories [] acc = ground arith
  any-add_categories (c ∷ cs) acc = elim (Bool-cases (has disabled (builtin_category_key c.id))) [
    | inl off ↦ rw off (any-add_categories cs acc)
    | inr on ↦ rw on (
        ground (
          arith,
          any-add_categories cs (add_domains disabled c.id c.domains acc),
          any-add_domains c.id c.domains acc,
        ))
  ]

-- The domains that the snapshot has for a device
abbrev domains_for : AllowlistSnapshot → String → List String
domains_for s key = or_else (get s.device_domains key) []

abbrev global_entry : (String → Bool) → UserEntry → Bool
global_entry f e = not (is_for_device e) && f (to_lower_case e.parent_domain)

abbrev device_entry : (String → Bool) → String → UserEntry → Bool
device_entry f key e =
    is_for_device e && str_eq (to_lower_case e.device_key) key && f (to_lower_case e.parent_domain)

module _ (f : String → Bool) where
  global-add_entry :
      (s : AllowlistSnapshot) (e : UserEntry)
      → any f (add_entry s e).global_domains ≡ (any f s.global_domains || global_entry f e)
  unfolding add_entry
  global-add_entry s e = elim (Bool-cases (is_for_device e)) [
    | inl own ↦ rw own (ground arith)
    | inr shared ↦ rw shared (any-include f s.global_domains (to_lower_case e.parent_domain))
  ]

  global-add_entries :
      (s : AllowlistSnapshot) (es : List UserEntry)
      → any f (add_entries s es).global_domains
        ≡ (any f s.global_domains || any (global_entry f) es)
  unfolding add_entries
  global-add_entries s [] = ground arith
  global-add_entries s (e ∷ es) =
      ground (arith, global-add_entries (add_entry s e) es, global-add_entry s e)

  device-set :
      (s : AllowlistSnapshot) (own key d : String)
      → any f (or_else (get (set s.device_domains own (include (domains_for s own) d)) key) [])
        ≡ (any f (domains_for s key) || (str_eq own key && f d))
  device-set s own key d =
      rw (get-set s.device_domains own key (include (domains_for s own) d))
        (elim (Bool-cases (str_eq own key)) [
          | inl same ↦
              rw same (rw (← (eq_iff own key).0 same) (any-include f (domains_for s own) d))
          | inr other ↦ rw other (ground arith)
        ])

  device-add_entry :
      (s : AllowlistSnapshot) (e : UserEntry) (key : String)
      → any f (domains_for (add_entry s e) key)
        ≡ (any f (domains_for s key) || device_entry f key e)
  unfolding add_entry
  device-add_entry s e key = elim (Bool-cases (is_for_device e)) [
    | inl own ↦
        rw own (device-set s (to_lower_case e.device_key) key (to_lower_case e.parent_domain))
    | inr shared ↦ rw shared (ground arith)
  ]

  device-add_entries :
      (s : AllowlistSnapshot) (es : List UserEntry) (key : String)
      → any f (domains_for (add_entries s es) key)
        ≡ (any f (domains_for s key) || any (device_entry f key) es)
  unfolding add_entries
  device-add_entries s [] key = ground arith
  device-add_entries s (e ∷ es) key =
      ground (arith, device-add_entries (add_entry s e) es key, device-add_entry s e key)

-- Whether an entry holds for the client: all do that name no device, and those that name the client's
-- key without regard to case.
abbrev pub holds_for : Option String → UserEntry → Bool
holds_for none e = not (is_for_device e)
holds_for (some key) e =
    not (is_for_device e)
    || (not (is_empty key) && str_eq (to_lower_case e.device_key) (to_lower_case key))

any-holds_for :
    (f : String → Bool) (key : Option String) (es : List UserEntry)
    → any (λ e. holds_for key e && f (to_lower_case e.parent_domain)) es ≡ (
        any (global_entry f) es || (elim key [
          | none ↦ false
          | some k ↦ not (is_empty k) && any (device_entry f (to_lower_case k)) es
        ]))
any-holds_for f none [] = refl
any-holds_for f none (e ∷ es) = ground (arith, any-holds_for f none es)
any-holds_for f (some k) [] = ground arith
any-holds_for f (some k) (e ∷ es) = ground (arith, any-holds_for f (some k) es)

device_matches-covers :
    (p : String) (o : Option (List String)) → device_matches p o ≡ any (covers p) (or_else o [])
unfolding device_matches
device_matches-covers p none = refl
device_matches-covers p (some ds) = suffix-covers p ds

for_key-covers :
    (p : String) (cats : List BuiltInCategory) (disabled : List String) (es : List UserEntry)
    (key : Option String)
    → for_key p key (load_allowlist_snapshot cats disabled es) ≡ (elim key [
      | none ↦ false
      | some k ↦ not (is_empty k) && any (device_entry (covers p) (to_lower_case k)) es
    ])
unfolding for_key load_allowlist_snapshot get
for_key-covers p cats disabled es none = refl
for_key-covers p cats disabled es (some k) =
    let start : AllowlistSnapshot = record {
      global_domains = active_built_in_domains cats disabled;
      device_domains = [];
    } in
    ap (λ b. not (is_empty k) && b)
      (device_matches-covers p (get (add_entries start es).device_domains (to_lower_case k))
        ∙ device-add_entries (covers p) start es (to_lower_case k))

-- A DNS client is spared exactly if a built-in domain that is not disabled, or a user's entry that
-- holds for the client, is the queried parent domain or a suffix of it at a dot, letter case and a
-- final dot of the parent domain aside.
pub is_allowlisted-covers :
    (cats : List BuiltInCategory) (disabled : List String) (es : List UserEntry) (parent : String)
    (key : Option String)
    → is_allowlisted parent key (load_allowlist_snapshot cats disabled es) ≡ (
        by_built_ins (covers (without_final_dot (to_lower_case parent))) cats disabled
        || any
            (λ e.
              holds_for key e
              && covers (without_final_dot (to_lower_case parent)) (to_lower_case e.parent_domain))
            es)
unfolding is_allowlisted load_allowlist_snapshot active_built_in_domains
is_allowlisted-covers cats disabled es parent key =
    let p = without_final_dot (to_lower_case parent) in
    let start : AllowlistSnapshot = record {
      global_domains = active_built_in_domains cats disabled;
      device_domains = [];
    } in
    ground (
      arith,
      suffix-covers p (add_entries start es).global_domains,
      global-add_entries (covers p) start es,
      any-add_categories (covers p) disabled cats [],
      for_key-covers p cats disabled es key,
      any-holds_for (covers p) key es,
    )
