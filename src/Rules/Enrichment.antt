-- ===== src/Rules/Enrichment.antt =====
-- internal/rules/filter_config.go: what the name of a metric says of its timeframe and value type, and the
-- defaults of a condition.
use Prim.Native.Char.{Char, code}
use stock_scanner.Prelude.{
  ℕ, String, Bool, true, false, not, ◌&&◌, ◌||◌, Option, none, some, List, [], ◌∷◌, str_eq,
  str_append, if◌then◌else◌, ◌==◌, leb,
}
use stock_scanner.Models.Rule.{Condition}

-- [0-9] and [mhd]
abbrev is_digit : Char → Bool
is_digit c = leb 48 (code c) && leb (code c) 57

abbrev is_unit : Char → Bool
is_unit c = (code c == 109) || (code c == 104) || (code c == 100)

-- (?:_(?:pct|percent))?$
abbrev is_end : String → Bool
is_end s = str_eq s "" || str_eq s "_pct" || str_eq s "_percent"

abbrev prepend : Char → Option String → Option String
prepend c none = none
prepend c (some s) = some (String.◌∷◌ c s)

-- (\d+[mhd]) and the end, after an underscore; `seen` says that a digit has come.
unfoldable pub timeframe_at : Bool → String → Option String
timeframe_at seen String.[] = none
timeframe_at seen (String.◌∷◌ c s) =
    let later = timeframe_at true s in
    if is_digit c
    then prepend c later
    else if seen && is_unit c && is_end s
    then some (String.◌∷◌ c String.[])
    else none

abbrev or_later : Option String → Option String → Option String
or_later (some s) later = some s
or_later none later = later

-- The leftmost match of the regular expression
unfoldable pub match_timeframe : String → Option String
unfolding timeframe_at
match_timeframe String.[] = none
match_timeframe (String.◌∷◌ c s) =
    let later = match_timeframe s in
    if code c == 95 then or_later (timeframe_at false s) later else later

-- strings.HasSuffix, strings.TrimSuffix and strings.Contains
unfoldable pub has_suffix : String → String → Bool
has_suffix String.[] suffix = str_eq String.[] suffix
has_suffix (String.◌∷◌ c s) suffix =
    let later = has_suffix s suffix in str_eq (String.◌∷◌ c s) suffix || later

unfoldable pub trim_suffix : String → String → String
trim_suffix String.[] suffix = String.[]
trim_suffix (String.◌∷◌ c s) suffix =
    let later = trim_suffix s suffix in
    if str_eq (String.◌∷◌ c s) suffix then String.[] else String.◌∷◌ c later

unfoldable pub has_prefix : String → String → Bool
has_prefix s String.[] = true
has_prefix String.[] (String.◌∷◌ d p) = false
has_prefix (String.◌∷◌ c s) (String.◌∷◌ d p) =
    let later = has_prefix s p in (code c == code d) && later

unfoldable pub contains : String → String → Bool
unfolding has_prefix
contains String.[] part = has_prefix String.[] part
contains (String.◌∷◌ c s) part =
    let later = contains s part in has_prefix (String.◌∷◌ c s) part || later

-- The patterns, each without its underscore
abbrev timeframe_patterns : List String
timeframe_patterns =
    "1m" ∷ "2m" ∷ "5m" ∷ "10m" ∷ "15m" ∷ "30m" ∷ "60m" ∷ "1h" ∷ "2h" ∷ "4h" ∷ "daily" ∷ "today"
    ∷ "5d" ∷ "10d" ∷ "20d" ∷ "1y" ∷ "3m" ∷ "6m" ∷ []

unfoldable pub match_pattern : String → List String → String
unfolding has_suffix
match_pattern base [] = ""
match_pattern base (pattern ∷ patterns) =
    let later = match_pattern base patterns in
    if has_suffix base (str_append "_" pattern) then pattern else later

abbrev base_name : String → String
base_name name =
    if has_suffix name "_pct"
    then trim_suffix name "_pct"
    else if has_suffix name "_percent"
    then trim_suffix name "_percent"
    else name

unfoldable pub extract_timeframe : String → String
unfolding match_timeframe match_pattern has_suffix trim_suffix
extract_timeframe name = elim (match_timeframe name) [
  | some timeframe ↦ timeframe
  | none ↦ match_pattern (base_name name) timeframe_patterns
]

unfoldable pub extract_value_type : String → String
unfolding contains
extract_value_type name = if contains name "_pct" || contains name "_percent" then "%" else "$"

unfoldable pub normalize_metric_name : String → String
unfolding extract_timeframe trim_suffix
normalize_metric_name name =
    let timeframe = extract_timeframe name in
    let timeless =
      if not (str_eq timeframe "") then trim_suffix name (str_append "_" timeframe) else name in
    trim_suffix (trim_suffix timeless "_pct") "_percent"

abbrev pub or_zero : Option ℕ → Option ℕ
or_zero none = some 0
or_zero (some t) = some t

unfoldable pub enrich_condition : {F : Type 0} → Condition F → Condition F
unfolding extract_timeframe extract_value_type
enrich_condition c = record c {
  timeframe = if str_eq c.timeframe "" then extract_timeframe c.metric else c.timeframe;
  value_type = if str_eq c.value_type "" then extract_value_type c.metric else c.value_type;
  calculated_during = if str_eq c.calculated_during "" then "all" else c.calculated_during;
  volume_threshold = or_zero c.volume_threshold;
}
