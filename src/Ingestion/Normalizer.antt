-- ===== src/Ingestion/Normalizer.antt =====
-- internal/data/normalizer.go: messages of the providers into ticks. A message that is a JSON object is
-- its dictionary of values; an `int64` is its pattern. What the Go library decodes and parses is
-- the argument `Library`; `now` is the clock's reading.
pub mod Accepted
pub mod Encoded
use stock_scanner.Prelude.{
  ℕ, ◌+◌, ◌-◌, String, Bool, true, false, not, ◌&&◌, Option, none, some, List, [], ◌∷◌, str_eq,
  if◌then◌else◌, ◌==◌, is_empty, Result, ok, err, ◌>>=◌, ◌>>◌, fail_if,
}
use stock_scanner.Float.{Float, zero_f}
use stock_scanner.Int64.{is_neg, word}
use stock_scanner.Dict.{Dict, lookup}
use stock_scanner.Models.Market.{ModelError, Tick, validate_tick}
use stock_scanner.Scanner.ScanLoop.{unix_epoch}

-- A decoded value: a float64, an int64, a string, or a value of another type
pub data Json (F : Type 0) : Type 0 where
  number : F → Json F
  integer : ℕ → Json F
  text : String → Json F
  other : Json F

pub data NormalizeError : Type 0 where
  empty_message unsupported_format missing_symbol invalid_price missing_price : NormalizeError
  invalid_tick : ModelError → NormalizeError

-- json.Unmarshal into a map, strings.ToUpper, strconv.ParseFloat and ParseInt, and time.Parse with a
-- layout
pub record Library (F : Type 0) : Type 0 where
  pub unmarshal : List ℕ → Option (Dict (Json F))
  pub to_upper : String → String
  pub parse_float : String → Option F
  pub parse_int : String → Option ℕ
  pub parse_time : String → String → Option ℕ

abbrev pub rfc3339 : String
rfc3339 = "2006-01-02T15:04:05Z07:00"

abbrev pub rfc3339_nano : String
rfc3339_nano = "2006-01-02T15:04:05.999999999Z07:00"

-- time.Unix(0, ns)
abbrev pub from_unix : ℕ → ℕ
from_unix ns = if is_neg ns then unix_epoch + ns - word else unix_epoch + ns

abbrev pub or_default {ℓ} : {A : Type ℓ} → A → Option A → A
or_default z none = z
or_default z (some a) = a

-- A trade, unless the message's type is the one of a quote
abbrev kind_of : Option String → String → String
kind_of none quote = "trade"
kind_of (some s) quote = if str_eq s quote then "quote" else "trade"

module _ {F : Type 0} where
  -- data[k].(string)
  abbrev pub text_of : Option (Json F) → Option String
  text_of (some (text s)) = some s
  text_of _ = none

  abbrev pub new_tick : String → ℕ → String → F → F → F → ℕ → Tick F
  new_tick symbol timestamp kind price bid ask size = record {
    symbol = symbol;
    price = price;
    size = size;
    timestamp = timestamp;
    kind = kind;
    bid = bid;
    ask = ask;
  }

module _ {F : Type 0} ⦃fl : Float F⦄ (lib : Library F) where
  -- tick.Validate, with its error wrapped
  unfoldable pub validated : Tick F → Result NormalizeError (Tick F)
  unfolding validate_tick
  validated t = elim (validate_tick t) [ ok u ↦ ok t | err e ↦ err (invalid_tick e) ]

  abbrev pub read_symbol : Option (Json F) → Result NormalizeError String
  read_symbol (some (text s)) = ok (lib.to_upper s)
  read_symbol _ = err missing_symbol

  abbrev parsed_price : Option F → Result NormalizeError F
  parsed_price none = err invalid_price
  parsed_price (some x) = ok x

  abbrev pub read_price : Option (Json F) → Result NormalizeError F
  read_price (some (number x)) = ok x
  read_price (some (text s)) = parsed_price (lib.parse_float s)
  read_price _ = err missing_price

  -- The price of a quote, where it is a number or parses
  abbrev quote_price : Option (Json F) → Option F
  quote_price (some (number x)) = some x
  quote_price (some (text s)) = lib.parse_float s
  quote_price _ = none

  abbrev pub read_size : Option (Json F) → ℕ
  read_size (some (number x)) = fl.to_int x
  read_size (some (integer n)) = n
  read_size _ = 0

  abbrev alpaca_size : Option (Json F) → ℕ
  alpaca_size (some (text s)) = or_default 0 (lib.parse_int s)
  alpaca_size v = read_size v

  abbrev first_time : Option ℕ → Option ℕ → ℕ → ℕ
  first_time (some t) later now = t
  first_time none (some t) now = t
  first_time none none now = now

  -- The second and the third layout are the same.
  abbrev alpaca_time : Option (Json F) → ℕ → ℕ
  alpaca_time (some (text s)) now =
      first_time (lib.parse_time rfc3339 s) (lib.parse_time rfc3339_nano s) now
  alpaca_time (some (number x)) now = from_unix (fl.to_int x)
  alpaca_time (some (integer n)) now = from_unix n
  alpaca_time _ now = now

  abbrev polygon_time : Option (Json F) → ℕ → ℕ
  polygon_time (some (number x)) now = from_unix (fl.to_int x)
  polygon_time (some (integer n)) now = from_unix n
  polygon_time _ now = now

  abbrev mock_time : Option (Json F) → ℕ → ℕ
  mock_time (some (text s)) now = or_default now (lib.parse_time rfc3339 s)
  mock_time _ now = now

  abbrev alpaca_trade : ℕ → String → Dict (Json F) → Result NormalizeError (Tick F)
  alpaca_trade time symbol message = do
    price ← read_price (lookup "p" message)
    validated (new_tick symbol time "trade" price zero_f zero_f (alpaca_size (lookup "s" message)))

  -- The price is the ask price, or the bid price where that is 0.
  abbrev alpaca_quote : ℕ → String → Dict (Json F) → Result NormalizeError (Tick F)
  alpaca_quote time symbol message =
      let ask = or_default zero_f (quote_price (lookup "ap" message)) in
      let bid = quote_price (lookup "bp" message) in
      let price = if fl.eq ask zero_f then or_default ask bid else ask in
      validated (new_tick symbol time "quote" price (or_default zero_f bid) ask 0)

  abbrev alpaca_message : String → ℕ → Dict (Json F) → String → Result NormalizeError (Tick F)
  alpaca_message kind time message symbol =
      if str_eq kind "trade"
      then alpaca_trade time symbol message
      else alpaca_quote time symbol message

  unfoldable pub normalize_alpaca : ℕ → Dict (Json F) → Result NormalizeError (Tick F)
  unfolding lookup validated
  normalize_alpaca now message =
      read_symbol (lookup "S" message)
      >>= alpaca_message (kind_of (text_of (lookup "T" message)) "q")
          (alpaca_time (lookup "t" message) now) message

  unfoldable pub normalize_polygon : ℕ → Dict (Json F) → Result NormalizeError (Tick F)
  unfolding lookup validated
  normalize_polygon now message = do
    symbol ← read_symbol (lookup "sym" message)
    price ← read_price (lookup "p" message)
    validated (
        new_tick symbol (polygon_time (lookup "t" message) now)
          (kind_of (text_of (lookup "ev" message)) "Q") price zero_f zero_f
          (read_size (lookup "s" message)))

  abbrev mock_price : Option (Json F) → Result NormalizeError F
  mock_price (some (number x)) = ok x
  mock_price _ = err missing_price

  unfoldable pub normalize_mock : ℕ → Dict (Json F) → Result NormalizeError (Tick F)
  unfolding lookup validated
  normalize_mock now message = do
    symbol ← read_symbol (lookup "symbol" message)
    price ← mock_price (lookup "price" message)
    validated (
        new_tick symbol (mock_time (lookup "timestamp" message) now)
          (or_default "trade" (text_of (lookup "type" message))) price zero_f zero_f
          (read_size (lookup "size" message)))

  -- The generic fields: the first of some names that has a usable value
  unfoldable pub find_symbol : Dict (Json F) → List String → Option String
  unfolding lookup
  find_symbol message [] = none
  find_symbol message (field ∷ fields) =
      let later = find_symbol message fields in
      elim (text_of (lookup field message)) [
        | none ↦ later
        | some s ↦ if str_eq s "" then later else some (lib.to_upper s)
      ]

  abbrev pub positive_price : Option (Json F) → Option F
  positive_price (some (number x)) = if fl.lt zero_f x then some x else none
  positive_price (some (text s)) = elim (lib.parse_float s) [
    | none ↦ none
    | some x ↦ if fl.lt zero_f x then some x else none
  ]
  positive_price _ = none

  abbrev pub size_value : Option (Json F) → Option ℕ
  size_value (some (number x)) = some (fl.to_int x)
  size_value (some (integer n)) = some n
  size_value _ = none

  abbrev pub time_value : Option (Json F) → Option ℕ
  time_value (some (text s)) = lib.parse_time rfc3339 s
  time_value (some (number x)) = some (from_unix (fl.to_int x))
  time_value (some (integer n)) = some (from_unix n)
  time_value _ = none

  unfoldable pub find_value {ℓ} :
      {A : Type ℓ} → (Option (Json F) → Option A) → Dict (Json F) → List String → Option A
  unfolding lookup
  find_value read message [] = none
  find_value read message (field ∷ fields) =
      let later = find_value read message fields in
      elim (read (lookup field message)) [ none ↦ later | some a ↦ some a ]

  abbrev or_now : ℕ → ℕ → ℕ
  or_now t now = if t == 0 then now else t

  -- The tests on what was found
  unfoldable pub generic_tick : ℕ → String → F → ℕ → ℕ → String → Result NormalizeError (Tick F)
  unfolding validated
  generic_tick now symbol price size time kind = do
    fail_if (str_eq symbol "") missing_symbol
    fail_if (fl.le price zero_f) missing_price
    validated (new_tick symbol (or_now time now) kind price zero_f zero_f size)

  unfoldable pub normalize_generic : ℕ → Dict (Json F) → Result NormalizeError (Tick F)
  unfolding find_symbol find_value lookup generic_tick
  normalize_generic now message =
      let symbol =
        or_default ""
          (find_symbol message ("symbol" ∷ "sym" ∷ "S" ∷ "ticker" ∷ "instrument" ∷ [])) in
      let price =
        or_default zero_f (
          find_value positive_price message
            ("price" ∷ "p" ∷ "last" ∷ "close" ∷ "ap" ∷ "bp" ∷ [])) in
      let size =
        or_default 0
          (find_value size_value message ("size" ∷ "s" ∷ "volume" ∷ "qty" ∷ "quantity" ∷ [])) in
      let time =
        or_default 0
          (find_value time_value message ("timestamp" ∷ "t" ∷ "time" ∷ "ts" ∷ "datetime" ∷ [])) in
      generic_tick now symbol price size time (or_default "trade" (text_of (lookup "type" message)))

  unfoldable pub normalize_json : String → ℕ → Dict (Json F) → Result NormalizeError (Tick F)
  unfolding normalize_alpaca normalize_polygon normalize_mock normalize_generic
  normalize_json provider now message =
      if str_eq provider "alpaca"
      then normalize_alpaca now message
      else if str_eq provider "polygon"
      then normalize_polygon now message
      else if str_eq provider "mock"
      then normalize_mock now message
      else normalize_generic now message

  unfoldable pub normalize : String → ℕ → List ℕ → Result NormalizeError (Tick F)
  unfolding normalize_json
  normalize provider now raw =
      if is_empty raw then err empty_message else elim (lib.unmarshal raw) [
        | none ↦ err unsupported_format
        | some message ↦ normalize_json provider now message
      ]

  -- NormalizeBatch, with the clock's reading at each message
  abbrev pub sort_result :
      Result NormalizeError (Tick F)
      → List (Tick F) × List NormalizeError
      → List (Tick F) × List NormalizeError
  sort_result (ok t) rest = (t ∷ rest.0, rest.1)
  sort_result (err e) rest = (rest.0, e ∷ rest.1)

  unfoldable pub normalize_batch : String → List (ℕ × List ℕ) → List (Tick F) × List NormalizeError
  unfolding normalize
  normalize_batch provider [] = ([], [])
  normalize_batch provider ((now, raw) ∷ rest) =
      sort_result (normalize provider now raw) (normalize_batch provider rest)
