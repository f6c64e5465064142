-- ===== src/Toplists.antt =====
-- internal/models/toplist.go, internal/toplist/metric_mapper.go and internal/scanner/toplist_integration.go:
-- the toplists that the scanner worker updates. Logging is left out.
pub mod Silent
use stock_scanner.Prelude.{
  ℕ, ◌-◌, String, Bool, true, false, not, ◌&&◌, ◌||◌, Option, none, some, List, [], ◌∷◌, ◌++◌,
  str_eq, str_append, if◌then◌else◌, leb, is_empty, Result, ok, err, ◌>>=◌, ◌>>◌, fail_if,
}
use stock_scanner.Float.{Float, zero_f}
use stock_scanner.Dict.{Dict, lookup}
use stock_scanner.Metrics.{percent_change}

pub data ToplistError : Type 0 where
  invalid_id invalid_name invalid_metric invalid_time_window invalid_sort_order : ToplistError

-- Without the filters, the columns and the colours, which nothing here reads
pub record ToplistConfig : Type 0 where
  pub id : String
  pub user_id : String
  pub name : String
  pub metric : String
  pub time_window : String
  pub sort_order : String
  pub enabled : Bool

unfoldable pub valid_metric : String → Bool
valid_metric s =
    str_eq s "change_pct"
    || str_eq s "volume"
    || str_eq s "rsi"
    || str_eq s "relative_volume"
    || str_eq s "vwap_dist"

unfoldable pub valid_window : String → Bool
valid_window s = str_eq s "1m" || str_eq s "5m" || str_eq s "15m" || str_eq s "1h" || str_eq s "1d"

unfoldable pub validate_toplist : ToplistConfig → Result ToplistError (Unit {0})
unfolding valid_metric valid_window
validate_toplist tc = do
  fail_if (str_eq tc.id "") invalid_id
  fail_if (str_eq tc.name "") invalid_name
  fail_if (str_eq tc.metric "") invalid_metric
  fail_if (str_eq tc.time_window "") invalid_time_window
  fail_if (str_eq tc.sort_order "") invalid_sort_order
  fail_if (not (valid_metric tc.metric)) invalid_metric
  fail_if (not (valid_window tc.time_window)) invalid_time_window
  fail_if (not (str_eq tc.sort_order "asc" || str_eq tc.sort_order "desc")) invalid_sort_order

abbrev pub is_system_toplist : ToplistConfig → Bool
is_system_toplist tc = str_eq tc.user_id ""

-- GetSystemToplistRedisKey and GetUserToplistRedisKey, by the kind of the toplist
unfoldable pub get_toplist_redis_key : ToplistConfig → String
get_toplist_redis_key tc =
    if is_system_toplist tc
    then str_append "toplist:" (str_append tc.metric (str_append ":" tc.time_window))
    else str_append "toplist:user:" (str_append tc.user_id (str_append ":" tc.id))

abbrev change_name : String → String
change_name window =
    if str_eq window "1m"
    then "price_change_1m_pct"
    else if str_eq window "5m"
    then "price_change_5m_pct"
    else if str_eq window "15m"
    then "price_change_15m_pct"
    else if str_eq window "1h"
    then "price_change_1h_pct"
    else if str_eq window "1d"
    then "price_change_1d_pct"
    else ""

abbrev volume_name : String → String
volume_name window =
    if str_eq window "1m"
    then "volume"
    else if str_eq window "5m"
    then "volume_5m"
    else if str_eq window "15m"
    then "volume_15m"
    else if str_eq window "1h"
    then "volume_1h"
    else if str_eq window "1d"
    then "volume_1d"
    else ""

abbrev relative_name : String → String
relative_name window =
    if str_eq window "5m"
    then "relative_volume_5m"
    else if str_eq window "15m"
    then "relative_volume_15m"
    else if str_eq window "1h"
    then "relative_volume_1h"
    else ""

-- GetMetricName, of a metric and a window
unfoldable pub get_metric_name : String → String → String
get_metric_name metric window =
    if str_eq metric "change_pct"
    then change_name window
    else if str_eq metric "volume"
    then volume_name window
    else if str_eq metric "rsi"
    then "rsi_14"
    else if str_eq metric "relative_volume"
    then relative_name window
    else ""

abbrev vwap_key : String → Option String
vwap_key window =
    if str_eq window "5m"
    then some "vwap_5m"
    else if str_eq window "15m"
    then some "vwap_15m"
    else if str_eq window "1h"
    then some "vwap_1h"
    else none

module _ {F : Type 0} ⦃fl : Float F⦄ where
  abbrev distance : Option F → Option F → Option F
  distance none price = none
  distance (some vwap) none = none
  distance (some vwap) (some price) =
      if fl.eq vwap zero_f then none else some (percent_change price vwap)

  unfoldable pub get_vwap_distance : String → Dict F → Option F
  unfolding lookup
  get_vwap_distance window metrics = elim (vwap_key window) [
    | none ↦ none
    | some key ↦ distance (lookup key metrics) (lookup "close" metrics)
  ]

  -- GetMetricValue, of a metric and a window
  unfoldable pub get_metric_value : String → String → Dict F → Option F
  unfolding get_metric_name get_vwap_distance lookup
  get_metric_value metric window metrics =
      let live =
        if str_eq metric "volume" && str_eq window "1m"
        then lookup "volume_live" metrics
        else none in
      if str_eq (get_metric_name metric window) ""
      then (if str_eq metric "vwap_dist" then get_vwap_distance window metrics else none)
      else elim (lookup (get_metric_name metric window) metrics) [
        | some value ↦ some value
        | none ↦ live
      ]

pub record ToplistUpdate (F : Type 0) : Type 0 where
  pub key : String
  pub symbol : String
  pub value : F

pub record ToplistIntegration (F : Type 0) : Type 0 where
  pub enabled : Bool
  pub update_interval : ℕ
  pub reload_interval : ℕ
  pub last_publish : ℕ
  pub last_reload : ℕ
  pub updates : List (ToplistUpdate F)
  pub toplists : List ToplistConfig

unfoldable pub new_toplist_integration : {F : Type 0} → Bool → ℕ → ℕ → ToplistIntegration F
new_toplist_integration enabled update_interval now = record {
  enabled = enabled;
  update_interval = update_interval;
  reload_interval = 30000000000;
  last_publish = now;
  last_reload = 0;
  updates = [];
  toplists = [];
}

-- What a publication gives to the updater: a batch, and the IDs and types to announce. The updater's
-- errors are logged.
pub record Published (F : Type 0) : Type 0 where
  pub batch : List (ToplistUpdate F)
  pub announced : List (String × String)

abbrev announcements : List ToplistConfig → List (String × String)
announcements [] = []
announcements (config ∷ configs) =
    (config.id, if is_system_toplist config then "system" else "user") ∷ announcements configs

module _ {F : Type 0} where
  -- `loaded` is what the store gives, `none` for an error.
  unfoldable pub reload_toplists :
      ℕ → Option (List ToplistConfig) → ToplistIntegration F → ToplistIntegration F
  reload_toplists now none ti = ti
  reload_toplists now (some loaded) ti = record ti { toplists = loaded; last_reload = now }

  -- The periodic reload; the clock is read again when the toplists have come.
  unfoldable pub refresh_toplists :
      ℕ → ℕ → Option (List ToplistConfig) → ToplistIntegration F → ToplistIntegration F
  unfolding reload_toplists
  refresh_toplists now now' loaded ti =
      if leb ti.reload_interval (now - ti.last_reload) || is_empty ti.toplists
      then reload_toplists now' loaded ti
      else ti

  unfoldable pub publish_updates : ℕ → ℕ → ToplistIntegration F → Published F × ToplistIntegration F
  publish_updates now now' ti =
      if not ti.enabled
      then (record { batch = []; announced = [] }, ti)
      else if leb ti.update_interval (now - ti.last_publish)
      then (
        record { batch = ti.updates; announced = announcements ti.toplists },
        record ti { updates = []; last_publish = now' },
      )
      else (record { batch = ti.updates; announced = [] }, record ti { updates = [] })

module _ {F : Type 0} ⦃fl : Float F⦄ where
  -- The loop over the toplists
  unfoldable pub updates_for : List ToplistConfig → String → Dict F → List (ToplistUpdate F)
  unfolding get_metric_value get_toplist_redis_key
  updates_for [] symbol metrics = []
  updates_for (config ∷ configs) symbol metrics =
      let later = updates_for configs symbol metrics in
      elim (get_metric_value config.metric config.time_window metrics) [
        | none ↦ later
        | some value ↦
            record { key = get_toplist_redis_key config; symbol = symbol; value = value } ∷ later
      ]

  unfoldable pub update_toplists :
      ℕ
      → ℕ
      → Option (List ToplistConfig)
      → String
      → Dict F
      → ToplistIntegration F
      → ToplistIntegration F
  unfolding refresh_toplists updates_for
  update_toplists now now' loaded symbol metrics ti =
      let fresh = refresh_toplists now now' loaded ti in
      if not ti.enabled
      then ti
      else record fresh { updates = fresh.updates ++ updates_for fresh.toplists symbol metrics }
