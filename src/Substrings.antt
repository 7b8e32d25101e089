-- ===== src/Substrings.antt =====
-- The substring search of the `twoway` crate, which src/skk/yaskkserv2.rs and
-- src/skk/yaskkserv2/dictionary_reader.rs call: an interface of its documented behaviour, and the
-- slices the callers take around what it finds.
pub mod Positions
pub mod Slices
pub mod Last
use yaskkserv.Prelude.{
  ℕ, ◌-◌, ◌≤◌, ◌<◌, ◌≡◌, Bool, true, false, ◌&&◌, Option, none, some, [], ◌∷◌, leb, ◌==◌,
  if◌then◌else◌, Bytes, length, take, drop, Result, ok, panic,
}

abbrev pub starts_with : Bytes → Bytes → Bool
starts_with [] text = true
starts_with (p ∷ ps) [] = false
starts_with (p ∷ ps) (c ∷ cs) = p == c && starts_with ps cs

-- Where a pattern first occurs in a text, or that it does not.
abbrev pub IsFirst : Bytes → Bytes → Option ℕ → Type 0
IsFirst text pattern none = (j : ℕ) → starts_with pattern (drop j text) ≡ false
IsFirst text pattern (some i) =
    (starts_with pattern (drop i text) ≡ true)
    × ((j : ℕ) → j < i → starts_with pattern (drop j text) ≡ false)

-- `find_bytes(text, pattern)` is "the first occurrence of pattern in text".
pub record TwoWay : Type 0 where
  pub find_bytes : Bytes → Bytes → Option ℕ
  pub find_bytes-IsFirst : (text pattern : Bytes) → IsFirst text pattern (find_bytes text pattern)

-- `&bytes[from..]`, which panics out of range.
abbrev pub slice_from : Bytes → ℕ → Result Bytes
slice_from bytes from = if leb from (length bytes) then ok (drop from bytes) else panic

-- `&bytes[from..to]`.
abbrev pub slice : Bytes → ℕ → ℕ → Result Bytes
slice bytes from to =
    if leb from to && leb to (length bytes) then ok (take (to - from) (drop from bytes)) else panic

-- Where a pattern last occurs.
abbrev pub IsLast : Bytes → Bytes → Option ℕ → Type 0
IsLast text pattern none = (j : ℕ) → starts_with pattern (drop j text) ≡ false
IsLast text pattern (some i) =
    (starts_with pattern (drop i text) ≡ true)
    × (i ≤ length text)
    × ((j : ℕ) → i < j → j ≤ length text → starts_with pattern (drop j text) ≡ false)

-- `rfind_bytes(text, pattern)` is "the last occurrence of pattern in text".
pub record TwoWayBack : Type 0 where
  pub rfind_bytes : Bytes → Bytes → Option ℕ
  pub rfind_bytes-IsLast : (text pattern : Bytes) → IsLast text pattern (rfind_bytes text pattern)
