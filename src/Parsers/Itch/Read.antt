-- ===== src/Parsers/Itch/Read.antt =====
-- Big-endian fields as a sender encodes them, and the numbers that their bytes give back.
use cpp_matching_engine.Base.{ℕ, ◌+◌, ◌*◌, ◌/◌, ◌%◌, ◌^◌, ◌<◌, ◌≡◌, List, ◌∷◌, arith}
use cpp_matching_engine.Types.{Side, buy, sell}

abbrev pub be16 : ℕ → List ℕ → List ℕ
be16 n rest = (n / 2 ^ 8 % 256) ∷ (n % 256) ∷ rest

abbrev pub be32 : ℕ → List ℕ → List ℕ
be32 n rest = (n / 2 ^ 24 % 256) ∷ (n / 2 ^ 16 % 256) ∷ be16 n rest

abbrev pub be48 : ℕ → List ℕ → List ℕ
be48 n rest = (n / 2 ^ 40 % 256) ∷ (n / 2 ^ 32 % 256) ∷ be32 n rest

abbrev pub be64 : ℕ → List ℕ → List ℕ
be64 n rest = (n / 2 ^ 56 % 256) ∷ (n / 2 ^ 48 % 256) ∷ be48 n rest

-- The symbol of eight bytes.
pub record Symbol : Type 0 where
  pub s0 : ℕ
  pub s1 : ℕ
  pub s2 : ℕ
  pub s3 : ℕ
  pub s4 : ℕ
  pub s5 : ℕ
  pub s6 : ℕ
  pub s7 : ℕ

abbrev pub symbol_bytes : Symbol → List ℕ → List ℕ
symbol_bytes s rest = s.s0 ∷ s.s1 ∷ s.s2 ∷ s.s3 ∷ s.s4 ∷ s.s5 ∷ s.s6 ∷ s.s7 ∷ rest

abbrev pub side_byte : Side → ℕ
side_byte buy = b'B'
side_byte sell = b'S'

-- The bytes of a number give the number back.
pub join32 :
    (n : ℕ)
    → n < 2 ^ 32
    → n / 2 ^ 24 % 256 * 2 ^ 24 + n / 2 ^ 16 % 256 * 2 ^ 16 + n / 2 ^ 8 % 256 * 2 ^ 8 + n % 256 ≡ n
join32 n h = omega arith

pub join48 :
    (n : ℕ)
    → n < 2 ^ 48
    → n / 2 ^ 40 % 256 * 2 ^ 40
        + n / 2 ^ 32 % 256 * 2 ^ 32
        + n / 2 ^ 24 % 256 * 2 ^ 24
        + n / 2 ^ 16 % 256 * 2 ^ 16
        + n / 2 ^ 8 % 256 * 2 ^ 8
        + n % 256
      ≡ n
join48 n h = omega arith

pub join64 :
    (n : ℕ)
    → n < 2 ^ 64
    → n / 2 ^ 56 % 256 * 2 ^ 56
        + n / 2 ^ 48 % 256 * 2 ^ 48
        + n / 2 ^ 40 % 256 * 2 ^ 40
        + n / 2 ^ 32 % 256 * 2 ^ 32
        + n / 2 ^ 24 % 256 * 2 ^ 24
        + n / 2 ^ 16 % 256 * 2 ^ 16
        + n / 2 ^ 8 % 256 * 2 ^ 8
        + n % 256
      ≡ n
join64 n h = omega arith
