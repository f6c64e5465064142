-- ===== src/Tests/Messages.antt =====
-- A tick as a message, for a library that decodes every message to it.
use stock_scanner.Prelude.{
  ℕ, ◌≡◌, refl, String, none, some, [], ◌∷◌, ok, str_eq, if◌then◌else◌, length,
}
use stock_scanner.Float.Fixed.{fixed, fixed-IsOrdered}
use stock_scanner.Models.Market.{validate_tick}
use stock_scanner.Ingestion.Normalizer.{Library, normalize_json, normalize_batch}
use stock_scanner.Ingestion.Normalizer.Accepted.{IsSorted, normalize_batch-IsSorted}
use stock_scanner.Ingestion.Normalizer.Encoded.{tick_message, unquoted, normalize_json-tick_message}
use stock_scanner.Tests.Data.{first_tick}

abbrev written_time : ℕ → String
written_time t = "0001-01-01T00:01:00.000000001Z"

abbrev one_message : Library ℕ
one_message = record {
  unmarshal = λ raw. some (tick_message written_time first_tick);
  to_upper = λ s. s;
  parse_float = λ s. none;
  parse_int = λ s. none;
  parse_time =
      λ layout s. if str_eq s "0001-01-01T00:01:00.000000001Z" then some 60000000001 else none;
}

normalize_batch-IsSorted_example :
    IsSorted one_message 2 (normalize_batch one_message "mock" ((7, 123 ∷ 125 ∷ []) ∷ (8, []) ∷ []))
normalize_batch-IsSorted_example =
    normalize_batch-IsSorted one_message "mock" ((7, 123 ∷ 125 ∷ []) ∷ (8, []) ∷ [])

normalize_json-tick_message_example :
    normalize_json one_message "mock" 7 (tick_message written_time first_tick)
    ≡ ok (unquoted first_tick)
unfolding validate_tick
normalize_json-tick_message_example =
    normalize_json-tick_message one_message fixed-IsOrdered "mock" 7 written_time first_tick refl
      refl (record { upper = refl; exact_size = refl; parsed = refl; number_price = refl }) refl

-- The batch gives one tick, for the empty message is refused.
one_tick : length (normalize_batch one_message "mock" ((7, 123 ∷ 125 ∷ []) ∷ (8, []) ∷ [])).0 ≡ 1
unfolding normalize_batch
one_tick = refl
