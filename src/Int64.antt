-- ===== src/Int64.antt =====
-- Go's `int64` (and `int`, `time.Duration`) as its 64-bit two's complement pattern, a number below
-- 2^64. Additions wrap around; a value is negative when its top bit is set.
use stock_scanner.Prelude.{ℕ, ◌+◌, ◌-◌, ◌%◌, ◌^◌, Bool, ◌||◌, ltb, leb, ◌==◌, List, [], ◌∷◌}

abbrev pub word : ℕ
word = 2 ^ 64

-- a + b
abbrev pub add : ℕ → ℕ → ℕ
add a b = (a + b) % word

-- a - b
abbrev pub sub : ℕ → ℕ → ℕ
sub a b = (a + word - b) % word

-- a < 0
abbrev pub is_neg : ℕ → Bool
is_neg a = leb (2 ^ 63) a

-- a <= 0
abbrev pub is_nonpos : ℕ → Bool
is_nonpos a = (a == 0) || leb (2 ^ 63) a

-- a < b on signed values: flipping the top bit makes it the order of the patterns.
abbrev pub slt : ℕ → ℕ → Bool
slt a b = ltb ((a + 2 ^ 63) % word) ((b + 2 ^ 63) % word)

-- Σ v, from an accumulator.
abbrev pub sum : List ℕ → ℕ
sum [] = 0
sum (v ∷ vs) = add v (sum vs)
