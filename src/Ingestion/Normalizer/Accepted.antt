-- ===== src/Ingestion/Normalizer/Accepted.antt =====
-- internal/data/normalizer.go: what is accepted is a valid tick, and every message of a batch is either
-- accepted or reported.
use stock_scanner.Prelude.{
  ℕ, suc, ◌+◌, String, ◌≡◌, refl, Bool, true, false, Option, none, some, List, [], ◌∷◌, str_eq,
  if◌then◌else◌, is_empty, length, Result, ok, err, ◌>>=◌, All, arith,
}
use stock_scanner.Float.{Float}
use stock_scanner.Dict.{Dict}
use stock_scanner.Models.Market.{ModelError, Tick, validate_tick}
use stock_scanner.Ingestion.Normalizer.{
  Json, NormalizeError, invalid_tick, unsupported_format, Library, validated, normalize_alpaca,
  normalize_polygon, normalize_mock, normalize_generic, normalize_json, normalize, normalize_batch,
  sort_result,
}

module _ {F : Type 0} ⦃fl : Float F⦄ where
  -- A result that is no tick that Tick.Validate refuses
  abbrev pub IsAccepted : Result NormalizeError (Tick F) → Type 0
  IsAccepted (ok t) = validate_tick t ≡ ok tt
  IsAccepted (err e) = Unit {0}

  checked :
      (t : Tick F) (r : Result ModelError (Unit {0}))
      → validate_tick t ≡ r
      → IsAccepted (elim r as (λ _. Result NormalizeError (Tick F)) [
        | ok u ↦ ok t
        | err e ↦ err (invalid_tick e)
      ])
  checked t (ok u) h = h
  checked t (err e) h = tt

  validated-IsAccepted : (lib : Library F) (t : Tick F) → IsAccepted (validated lib t)
  unfolding validated
  validated-IsAccepted lib t = checked t (validate_tick t) refl

  bind-IsAccepted :
      {A : Type 0} (r : Result NormalizeError A) (f : A → Result NormalizeError (Tick F))
      → ((a : A) → IsAccepted (f a))
      → IsAccepted (r >>= f)
  bind-IsAccepted (ok a) f h = h a
  bind-IsAccepted (err e) f h = tt

  if-IsAccepted :
      (b : Bool) (x y : Result NormalizeError (Tick F))
      → IsAccepted x
      → IsAccepted y
      → IsAccepted (if b then x else y)
  if-IsAccepted true x y h k = h
  if-IsAccepted false x y h k = k

  module _ (lib : Library F) (now : ℕ) (message : Dict (Json F)) where
    alpaca-IsAccepted : IsAccepted (normalize_alpaca lib now message)
    unfolding normalize_alpaca
    alpaca-IsAccepted = search (bind-IsAccepted, if-IsAccepted, validated-IsAccepted lib)

    polygon-IsAccepted : IsAccepted (normalize_polygon lib now message)
    unfolding normalize_polygon
    polygon-IsAccepted = search (bind-IsAccepted, validated-IsAccepted lib)

    mock-IsAccepted : IsAccepted (normalize_mock lib now message)
    unfolding normalize_mock
    mock-IsAccepted = search (bind-IsAccepted, validated-IsAccepted lib)

    generic-IsAccepted : IsAccepted (normalize_generic lib now message)
    unfolding normalize_generic
    generic-IsAccepted = search (bind-IsAccepted, validated-IsAccepted lib)

    json-IsAccepted : (provider : String) → IsAccepted (normalize_json lib provider now message)
    unfolding normalize_json
    json-IsAccepted provider = if-IsAccepted (str_eq provider "alpaca") _ _ alpaca-IsAccepted (
        if-IsAccepted (str_eq provider "polygon") _ _ polygon-IsAccepted
          (if-IsAccepted (str_eq provider "mock") _ _ mock-IsAccepted generic-IsAccepted))

  module _ (lib : Library F) where
    decoded-IsAccepted :
        (provider : String) (now : ℕ) (o : Option (Dict (Json F)))
        → IsAccepted (elim o as (λ _. Result NormalizeError (Tick F)) [
          | none ↦ err unsupported_format
          | some message ↦ normalize_json lib provider now message
        ])
    decoded-IsAccepted provider now none = tt
    decoded-IsAccepted provider now (some message) = json-IsAccepted lib now message provider

    normalize-IsAccepted :
        (provider : String) (now : ℕ) (raw : List ℕ) → IsAccepted (normalize lib provider now raw)
    unfolding normalize
    normalize-IsAccepted provider now raw =
        if-IsAccepted (is_empty raw) _ _ tt (decoded-IsAccepted provider now (lib.unmarshal raw))

    -- The ticks are valid, and they and the errors are as many as the messages.
    abbrev pub IsSorted : ℕ → List (Tick F) × List NormalizeError → Type 0
    IsSorted n sorted =
        All (λ t. validate_tick t ≡ ok tt) sorted.0 × (length sorted.0 + length sorted.1 ≡ n)

    sort_result-IsSorted :
        (r : Result NormalizeError (Tick F)) (n : ℕ) (rest : List (Tick F) × List NormalizeError)
        → IsAccepted r
        → IsSorted n rest
        → IsSorted (suc n) (sort_result lib r rest)
    sort_result-IsSorted (ok t) n rest h s = ((h, s.0), omega (arith, s.1))
    sort_result-IsSorted (err e) n rest h s = (s.0, omega (arith, s.1))

    -- Whatever the provider and whatever its messages decode to, each tick of a batch passes
    -- Tick.Validate, and each message gives either a tick or an error.
    pub normalize_batch-IsSorted :
        (provider : String) (messages : List (ℕ × List ℕ))
        → IsSorted (length messages) (normalize_batch lib provider messages)
    unfolding normalize_batch
    normalize_batch-IsSorted provider [] = (tt, refl)
    normalize_batch-IsSorted provider ((now, raw) ∷ rest) =
        sort_result-IsSorted (normalize lib provider now raw) (length rest)
          (normalize_batch lib provider rest) (normalize-IsAccepted provider now raw)
          (normalize_batch-IsSorted provider rest)
