-- ===== src/Ingestion/Normalizer/Encoded.antt =====
-- internal/data/normalizer.go against the JSON form of models.Tick: a tick that is written as a message is
-- read back.
use stock_scanner.Prelude.{
  ℕ, String, ◌≡◌, refl, ap, ◌∙◌, true, false, Option, some, List, [], ◌∷◌, str_eq, ◌==◌, ok, arith,
  inl, inr, Bool-cases,
}
use stock_scanner.Float.{Float, IsOrdered, zero_f}
use stock_scanner.Dict.{Dict, lookup}
use stock_scanner.Models.Market.{Tick, validate_tick}
use stock_scanner.Ingestion.Normalizer.{
  Json, number, text, new_tick, mock_time, or_default, text_of, positive_price, size_value,
  time_value, Library, rfc3339, validated, normalize_mock, generic_tick, normalize_generic,
  normalize_json, find_symbol, find_value,
}

module _ {F : Type 0} ⦃fl : Float F⦄ where
  -- The object of the tick's JSON tags that the normalizers read
  abbrev pub tick_message : (ℕ → String) → Tick F → Dict (Json F)
  tick_message format_time t =
      ("symbol", text t.symbol)
      ∷ ("price", number t.price)
      ∷ ("size", number (fl.of_int t.size))
      ∷ ("timestamp", text (format_time t.timestamp))
      ∷ ("type", text t.kind)
      ∷ []

  -- Neither message form has a bid or an ask price.
  abbrev pub unquoted : Tick F → Tick F
  unquoted t = record t { bid = zero_f; ask = zero_f }

  -- What is written of the tick can be read again.
  pub record IsWritable (lib : Library F) (format_time : ℕ → String) (t : Tick F) : Type 0 where
    pub upper : lib.to_upper t.symbol ≡ t.symbol
    pub exact_size : fl.to_int (fl.of_int t.size) ≡ t.size
    pub parsed : lib.parse_time rfc3339 (format_time t.timestamp) ≡ some t.timestamp
    pub number_price : fl.eq t.price t.price ≡ true

  message_fields :
      (format_time : ℕ → String) (t : Tick F)
      → (lookup "symbol" (tick_message format_time t) ≡ some (text t.symbol))
        × (lookup "price" (tick_message format_time t) ≡ some (number t.price))
        × (lookup "size" (tick_message format_time t) ≡ some (number (fl.of_int t.size)))
        × (lookup "timestamp" (tick_message format_time t) ≡ some (text (format_time t.timestamp)))
        × (lookup "type" (tick_message format_time t) ≡ some (text t.kind))
  unfolding lookup
  message_fields format_time t = (refl, refl, refl, refl, refl)

  unquoted_valid : (t : Tick F) → validate_tick (unquoted t) ≡ validate_tick t
  unfolding validate_tick
  unquoted_valid t = refl

  validate_tick-fields :
      (ord : IsOrdered F) (t : Tick F)
      → validate_tick t ≡ ok tt
      → fl.eq t.price t.price ≡ true
      → (str_eq t.symbol "" ≡ false)
        × (fl.lt zero_f t.price ≡ true)
        × (fl.le t.price zero_f ≡ false)
        × ((t.timestamp == 0) ≡ false)
  unfolding validate_tick
  validate_tick-fields ord t v n =
      ground (arith, ord.lt_flip zero_f t.price, ord.decimal_number 0 0)

  module _ (lib : Library F) (ord : IsOrdered F) where
    validated-ok :
        (t : Tick F) → validate_tick t ≡ ok tt → validated lib (unquoted t) ≡ ok (unquoted t)
    unfolding validated
    validated-ok t v = rw (validated, unquoted_valid t ∙ v) refl

    -- The tick as the mock normalizer reads it
    abbrev read_back : ℕ → (ℕ → String) → Tick F → Tick F
    read_back now format_time t =
        new_tick (lib.to_upper t.symbol) (mock_time lib (some (text (format_time t.timestamp))) now)
          t.kind t.price zero_f zero_f (fl.to_int (fl.of_int t.size))

    read_back_lem :
        (now : ℕ) (format_time : ℕ → String) (t : Tick F)
        → IsWritable lib format_time t
        → read_back now format_time t ≡ unquoted t
    read_back_lem now format_time t w = rw (w.upper, w.parsed, w.exact_size) refl

    mock-tick_message :
        (now : ℕ) (format_time : ℕ → String) (t : Tick F)
        → IsWritable lib format_time t
        → validate_tick t ≡ ok tt
        → normalize_mock lib now (tick_message format_time t) ≡ ok (unquoted t)
    unfolding normalize_mock lookup
    mock-tick_message now format_time t w v =
        ap (λ u. validated lib u) (read_back_lem now format_time t w) ∙ validated-ok t v

    -- The generic normalizer finds each field under the first name that it tries.
    symbol_found :
        (message : Dict (Json F)) (symbol : String) (fields : List String)
        → lookup "symbol" message ≡ some (text symbol)
        → str_eq symbol "" ≡ false
        → find_symbol lib message ("symbol" ∷ fields) ≡ some (lib.to_upper symbol)
    unfolding find_symbol
    symbol_found message symbol fields h e = rw (find_symbol, h, e) refl

    price_found :
        (message : Dict (Json F)) (price : F) (fields : List String)
        → lookup "price" message ≡ some (number price)
        → fl.lt zero_f price ≡ true
        → find_value lib (positive_price lib) message ("price" ∷ fields) ≡ some price
    unfolding find_value
    price_found message price fields h e = rw (find_value, h, e) refl

    size_found :
        (message : Dict (Json F)) (size : F) (fields : List String)
        → lookup "size" message ≡ some (number size)
        → find_value lib (size_value lib) message ("size" ∷ fields) ≡ some (fl.to_int size)
    unfolding find_value
    size_found message size fields h = rw (find_value, h) refl

    time_found :
        (message : Dict (Json F)) (time : String) (t : ℕ) (fields : List String)
        → lookup "timestamp" message ≡ some (text time)
        → lib.parse_time rfc3339 time ≡ some t
        → find_value lib (time_value lib) message ("timestamp" ∷ fields) ≡ some t
    unfolding find_value
    time_found message time t fields h e = rw (find_value, h, e) refl

    generic_tick_cong :
        {symbol kind : Option String} {price : Option F} {size time : Option ℕ} {s k : String}
        {p : F} {n t : ℕ} (now : ℕ)
        → symbol ≡ some s
        → price ≡ some p
        → size ≡ some n
        → time ≡ some t
        → kind ≡ some k
        → generic_tick lib now
            (or_default "" symbol)
            (or_default zero_f price)
            (or_default 0 size)
            (or_default 0 time)
            (or_default "trade" kind)
          ≡ generic_tick lib now s p n t k
    generic_tick_cong now a b c d e = rw (a, b, c, d, e) refl

    generic_tick_lem :
        (now : ℕ) (t : Tick F)
        → validate_tick t ≡ ok tt
        → fl.eq t.price t.price ≡ true
        → generic_tick lib now t.symbol t.price t.size t.timestamp t.kind ≡ ok (unquoted t)
    unfolding generic_tick
    generic_tick_lem now t v n =
        let fields = validate_tick-fields ord t v n in
        rw (fields.0, fields.2, fields.3) (validated-ok t v)

    generic-tick_message :
        (now : ℕ) (format_time : ℕ → String) (t : Tick F)
        → IsWritable lib format_time t
        → validate_tick t ≡ ok tt
        → normalize_generic lib now (tick_message format_time t) ≡ ok (unquoted t)
    unfolding normalize_generic
    generic-tick_message now format_time t w v =
        let fields = validate_tick-fields ord t v w.number_price in
        generic_tick_cong now
          (symbol_found (tick_message format_time t) t.symbol
              ("sym" ∷ "S" ∷ "ticker" ∷ "instrument" ∷ []) (message_fields format_time t).0 fields.0
            ∙ ap some w.upper)
          (price_found (tick_message format_time t) t.price
            ("p" ∷ "last" ∷ "close" ∷ "ap" ∷ "bp" ∷ []) (message_fields format_time t).1 fields.1)
          (size_found (tick_message format_time t) (fl.of_int t.size)
              ("s" ∷ "volume" ∷ "qty" ∷ "quantity" ∷ []) (message_fields format_time t).2
            ∙ ap some w.exact_size)
          (time_found (tick_message format_time t) (format_time t.timestamp) t.timestamp
            ("t" ∷ "time" ∷ "ts" ∷ "datetime" ∷ []) (message_fields format_time t).3 w.parsed)
          (ap text_of (message_fields format_time t).4)
        ∙ generic_tick_lem now t v w.number_price

  -- A valid tick that is written as a JSON object under the tags of models.Tick is read back by every
  -- normalizer but Alpaca's and Polygon's, without the bid and ask prices. The symbol is in upper
  -- case, the price is not NaN, the size is exact as a float64, and the written time parses to
  -- the tick's.
  pub normalize_json-tick_message :
      (lib : Library F) (ord : IsOrdered F) (provider : String) (now : ℕ) (format_time : ℕ → String)
      (t : Tick F)
      → str_eq provider "alpaca" ≡ false
      → str_eq provider "polygon" ≡ false
      → IsWritable lib format_time t
      → validate_tick t ≡ ok tt
      → normalize_json lib provider now (tick_message format_time t) ≡ ok (unquoted t)
  unfolding normalize_json
  normalize_json-tick_message lib ord provider now format_time t a p w v =
      rw (a, p)
        (elim (Bool-cases (str_eq provider "mock")) [
          | inl e ↦ rw e (mock-tick_message lib ord now format_time t w v)
          | inr e ↦ rw e (generic-tick_message lib ord now format_time t w v)
        ])
