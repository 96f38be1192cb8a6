-- ===== src/Parsers/Format.antt =====
-- include/lob/parsers.hpp: `detect_format`. The path is its bytes, and the file is what `read` puts
-- in the buffer (`none` where it cannot be opened); `tolower` and `isdigit` are those of the C locale.
use cpp_matching_engine.Base.{
  ℕ, zero, suc, ◌+◌, Bool, true, false, List, [], ◌∷◌, ◌&&◌, ◌||◌, ◌==◌, leb, if◌then◌else◌, Option,
  none, some,
}

pub data DataFormat : Type 0 where
  unknown lobster itch : DataFormat

abbrev pub lower : ℕ → ℕ
lower c = if leb b'A' c && leb c b'Z' then c + 32 else c

abbrev pub lower_all : List ℕ → List ℕ
lower_all [] = []
lower_all (c ∷ cs) = lower c ∷ lower_all cs

abbrev pub is_digit : ℕ → Bool
is_digit c = leb b'0' c && leb c b'9'

abbrev pub same : List ℕ → List ℕ → Bool
same [] [] = true
same (x ∷ xs) (y ∷ ys) = (x == y) && same xs ys
same _ _ = false

-- `path.substr(path.rfind('.'))`; `none` where there is no dot.
unfoldable pub extension : List ℕ → Option (List ℕ)
extension [] = none
extension (c ∷ cs) = elim (extension cs) [
  | some e ↦ some e
  | none ↦ if c == b'.' then some (c ∷ cs) else none
]

-- The loop over at most 32 bytes of the buffer: a comma after digits, dots and signs.
unfoldable pub looks_csv : ℕ → List ℕ → Bool
looks_csv zero cs = false
looks_csv (suc n) [] = false
looks_csv (suc n) (c ∷ cs) =
    let rest = looks_csv n cs in
    if c == 0
    then false
    else (if c == b','
        then true
        else (if c == b'.' || c == b'-' || is_digit c then rest else false))

abbrev pub by_content : Option (List ℕ) → DataFormat
by_content none = unknown
by_content (some cs) = if looks_csv 32 cs then lobster else itch

abbrev csv : List ℕ
csv = b'.' ∷ b'c' ∷ b's' ∷ b'v' ∷ []

abbrev bin : List ℕ
bin = b'.' ∷ b'b' ∷ b'i' ∷ b'n' ∷ []

abbrev dot_itch : List ℕ
dot_itch = b'.' ∷ b'i' ∷ b't' ∷ b'c' ∷ b'h' ∷ []

unfoldable pub detect_format : List ℕ → Option (List ℕ) → DataFormat
unfolding extension looks_csv
detect_format path file = elim (extension path) [
  | none ↦ by_content file
  | some e ↦
      if same (lower_all e) csv
      then lobster
      else (if same (lower_all e) bin || same (lower_all e) dot_itch then itch else by_content file)
]
