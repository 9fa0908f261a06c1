-- ===== src/Rules/Template.antt =====
-- ruleEngine.ts, interpolateTemplate: `template.replace(/\{\{(\w+)\}\}/g, …)` as one scan. A name
-- ends at the first character that is no word character, so that the scan never goes back.
pub mod Laws
use zero_proof.Base.{
  String, append, Bool, ◌&&◌, ◌||◌, List, [], ◌∷◌, ◌++◌, map, leb, ◌==◌, if◌then◌else◌,
}
use Prim.Native.Char.{Char, code}
use zero_proof.Base.Text.{concat}
use zero_proof.Rules.Value.{Value, Fields, field_at, text_of, undefined}

-- `\w`
unfoldable pub is_word : Char → Bool
is_word c =
    (leb b'a' (code c) && leb (code c) b'z')
    || (leb b'A' (code c) && leb (code c) b'Z')
    || (leb b'0' (code c) && leb (code c) b'9')
    || code c == b'_'

pub data Part : Type 0 where
  literal : String → Part
  hole : String → Part

-- What of a match has been read
pub data Scan : Type 0 where
  outside one_brace two_braces : Scan
  in_name closing : String → Scan

unfoldable pub pending : Scan → String
pending outside = ""
pending one_brace = "{"
pending two_braces = "{{"
pending (in_name w) = append "{{" w
pending (closing w) = append "{{" (append w "}")

unfoldable pub one : Char → String
one c = String.◌∷◌ c ""

-- What has been read is no match.
unfoldable pub give_up : Scan → Char → List Part × Scan
give_up st c =
    if code c == b'{'
    then (literal (pending st) ∷ [], one_brace)
    else (literal (pending st) ∷ literal (one c) ∷ [], outside)

unfoldable pub step : Scan → Char → List Part × Scan
step outside c = give_up outside c
step one_brace c = if code c == b'{' then ([], two_braces) else give_up one_brace c
step two_braces c =
    if is_word c
    then ([], in_name (one c))
    else if code c == b'{'
    then (literal "{" ∷ [], two_braces)
    else give_up two_braces c
step (in_name w) c =
    if is_word c
    then ([], in_name (append w (one c)))
    else if code c == b'}'
    then ([], closing w)
    else give_up (in_name w) c
step (closing w) c = if code c == b'}' then (hole w ∷ [], outside) else give_up (closing w) c

unfoldable pub parts_from : Scan → String → List Part
parts_from st String.[] = literal (pending st) ∷ []
parts_from st (String.◌∷◌ c s) = let now = step st c in now.0 ++ parts_from now.1 s

unfoldable pub parts_of : String → List Part
parts_of template = parts_from outside template

source_of : Part → String
source_of (literal s) = s
source_of (hole k) = append "{{" (append k "}}")

-- `item[key]`, else `context[key]`, else the match as it stands
filled : Value → Value → String → String
filled undefined undefined k = source_of (hole k)
filled undefined v k = text_of v
filled v other k = text_of v

render : (item context : Fields) → Part → String
render item context (literal s) = s
render item context (hole k) = filled (field_at item k) (field_at context k) k

pub interpolate_template : String → (item context : Fields) → String
interpolate_template template item context = concat (map (render item context) (parts_of template))
