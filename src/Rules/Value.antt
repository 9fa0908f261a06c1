-- ===== src/Rules/Value.antt =====
-- JavaScript values as they come from JSON and YAML. Numbers are natural: ports, counts and flags;
-- the negative and fractional ones are left out. Objects have their own properties only.
use zero_proof.Base.{
  ℕ, suc, String, Bool, true, false, not, ◌||◌, Option, none, some, List, [], ◌∷◌, str_eq, ◌==◌,
  if◌then◌else◌,
}
use Prim.Native.String.{count}
use zero_proof.Base.Text.{show, split, number, join}

mutual
  pub data Value : Type 0 where
    undefined : Value
    null : Value
    bool : Bool → Value
    num : ℕ → Value
    str : String → Value
    obj : Fields → Value
    arr : Items → Value

  pub data Fields : Type 0 where
    no_fields : Fields
    own : String → Value → Fields → Fields

  pub data Items : Type 0 where
    no_items : Items
    element : Value → Items → Items

-- `a === b`. Two arrays or objects are the same only as one object, and the two sides come from
-- different documents.
unfoldable pub strict_eq : Value → Value → Bool
strict_eq undefined undefined = true
strict_eq null null = true
strict_eq (bool true) (bool true) = true
strict_eq (bool false) (bool false) = true
strict_eq (num m) (num n) = m == n
strict_eq (str s) (str t) = str_eq s t
strict_eq _ _ = false

-- `xs.includes(v)`
unfoldable pub items_include : Items → Value → Bool
unfolding strict_eq
items_include no_items v = false
items_include (element x xs) v = strict_eq x v || items_include xs v

unfoldable pub count_items : Items → ℕ
count_items no_items = 0
count_items (element x xs) = suc (count_items xs)

-- `String(v)`; an array joins its elements by commas, missing ones as empty texts.
unfoldable mutual
  pub text_of : Value → String
  text_of undefined = "undefined"
  text_of null = "null"
  text_of (bool true) = "true"
  text_of (bool false) = "false"
  text_of (num n) = show n
  text_of (str s) = s
  text_of (arr xs) = join "," (texts_of xs)
  text_of (obj fs) = "[object Object]"

  pub texts_of : Items → List String
  texts_of no_items = []
  texts_of (element x xs) = element_text x ∷ texts_of xs

  pub element_text : Value → String
  element_text undefined = ""
  element_text null = ""
  element_text (bool true) = "true"
  element_text (bool false) = "false"
  element_text (num n) = show n
  element_text (str s) = s
  element_text (arr xs) = join "," (texts_of xs)
  element_text (obj fs) = "[object Object]"

-- `Number(v)`, `none` for NaN
unfoldable pub number_of : Value → Option ℕ
number_of undefined = none
number_of null = some 0
number_of (bool true) = some 1
number_of (bool false) = some 0
number_of (num n) = some n
number_of (str s) = number s
number_of (arr xs) = number (text_of (arr xs))
number_of (obj fs) = none

-- `obj[key]` among own properties, the first with that name
unfoldable pub field_at : Fields → String → Value
field_at no_fields k = undefined
field_at (own j v fs) k = if str_eq j k then v else field_at fs k

-- `Object.hasOwn(obj, key)`
unfoldable pub has_own : Fields → String → Bool
has_own no_fields k = false
has_own (own j v fs) k = if str_eq j k then true else has_own fs k

-- `xs[part]` for an index spelled in decimal
item_from : ℕ → Items → String → Value
item_from i no_items part = undefined
item_from i (element x xs) part = if str_eq (show i) part then x else item_from (suc i) xs part

char_from : ℕ → String → String → Value
char_from i String.[] part = undefined
char_from i (String.◌∷◌ c s) part =
    if str_eq (show i) part then str (String.◌∷◌ c "") else char_from (suc i) s part

-- `value[part]`
unfoldable pub property : Value → String → Value
unfolding item_from char_from
property (obj fs) part = field_at fs part
property (arr xs) part = if str_eq part "length" then num (count_items xs) else item_from 0 xs part
property (str s) part = if str_eq part "length" then num (count s) else char_from 0 s part
property _ part = undefined

is_nothing : Value → Bool
is_nothing undefined = true
is_nothing null = true
is_nothing _ = false

walk : Value → List String → Value
walk v [] = v
walk v (part ∷ parts) =
    let rest = walk (property v part) parts in if is_nothing v then undefined else rest

-- `getFieldValue`
unfoldable pub get_field_value : Value → String → Value
unfolding is_nothing walk
get_field_value v path = walk v (split b'.' path)

-- `!!v`
unfoldable pub truthy : Value → Bool
truthy undefined = false
truthy null = false
truthy (bool b) = b
truthy (num n) = not (n == 0)
truthy (str s) = not (str_eq s "")
truthy (arr xs) = true
truthy (obj fs) = true
