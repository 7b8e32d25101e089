-- ===== src/Requests/Chunks.antt =====
-- How the reads of src/skk/yaskkserv2.rs cut a request into chunks, and what is skipped of it.
use yaskkserv.Prelude.{
  ℕ, ◌+◌, ◌≤◌, ◌≡◌, refl, sym, ap, ◌∙◌, inr, Bool, true, false, ◌&&◌, none, some, List, [], ◌∷◌,
  ◌++◌, append_assoc, arith, leb, if◌then◌else◌, Bytes, Lacks, length, take, drop, length-append,
  take-append, drop-append, All, Result, ok,
}
use yaskkserv.Substrings.{TwoWay}
use yaskkserv.Substrings.Positions.{found, byte-IsFirst, byte_absent}
use yaskkserv.Requests.{
  Arrival, chunk, find_one_character_protocol, find_end, rounds, get_buffer_skip_count, is_line_end,
}
use yaskkserv.Requests.Delivered.{rounds-found, rounds-more}

-- A chunk that does not end a request: it is not empty, has no space and does not begin, line ends
-- aside, with a one-byte protocol.
abbrev pub IsQuiet : Bytes → Type 0
IsQuiet c = (1 ≤ length c) × Lacks b' ' c × (find_one_character_protocol c ≡ none)

abbrev pub joined : List Bytes → Bytes
joined [] = []
joined (c ∷ cs) = c ++ joined cs

abbrev pub chunks : List Bytes → List Arrival → List Arrival
chunks [] later = later
chunks (c ∷ cs) later = chunk c ∷ chunks cs later

module _ (w : TwoWay) where
  -- However a request is cut into quiet chunks before the one that brings its space, it is read up
  -- to the space: the buffer grows by the chunks and the rest of the request, and what follows the
  -- space stays buffered.
  pub rounds-chunks :
      (cs : List Bytes) (m rest buffer : Bytes) (n : ℕ) (later : List Arrival)
      → All IsQuiet cs
      → Lacks b' ' m
      → rounds w n buffer (chunks cs (chunk (m ++ b' ' ∷ rest) ∷ later)) ≡ (
        inr (n + length (joined cs) + length m + 1),
        buffer ++ (joined cs ++ (m ++ b' ' ∷ [])),
        record { buffered = rest; arrivals = later },
      )
  unfolding find_end
  rounds-chunks [] m rest buffer n later quiet lacks =
      let e : w.find_bytes (m ++ b' ' ∷ rest) (b' ' ∷ []) ≡ some (length m) =
        found w (m ++ b' ' ∷ rest) (b' ' ∷ []) (some (length m)) (byte-IsFirst b' ' m rest lacks) in
      let e' : find_end w (m ++ b' ' ∷ rest) ≡ some (length m) = rw (e, find_end) refl in
      let size : length (m ++ b' ' ∷ []) ≡ length m + 1 = length-append m (b' ' ∷ []) in
      let cut : m ++ b' ' ∷ rest ≡ (m ++ b' ' ∷ []) ++ rest =
        sym (append_assoc m (b' ' ∷ []) rest) in
      let count : n + (length m + 1) ≡ n + 0 + length m + 1 = omega arith in
      let taken : take (length m + 1) (m ++ b' ' ∷ rest) ≡ m ++ b' ' ∷ [] =
        ap (take (length m + 1)) cut
        ∙ ap (λ k. take k ((m ++ b' ' ∷ []) ++ rest)) (sym size)
        ∙ take-append (m ++ b' ' ∷ []) rest in
      let left : drop (length m + 1) (m ++ b' ' ∷ rest) ≡ rest =
        ap (drop (length m + 1)) cut
        ∙ ap (λ k. drop k ((m ++ b' ' ∷ []) ++ rest)) (sym size)
        ∙ drop-append (m ++ b' ' ∷ []) rest in
      rounds-found w n (length m) buffer (m ++ b' ' ∷ rest) later e'
      ∙ (λ i. (inr (count i), buffer ++ taken i, record { buffered = left i; arrivals = later }))
  rounds-chunks ([] ∷ cs) m rest buffer n later quiet lacks = absurd (omega (arith, quiet))
  rounds-chunks ((b ∷ c) ∷ cs) m rest buffer n later quiet lacks =
      let e : w.find_bytes (b ∷ c) (b' ' ∷ []) ≡ none =
        found w (b ∷ c) (b' ' ∷ []) none (byte_absent b' ' (b ∷ c) quiet.0.1) in
      let e' : find_end w (b ∷ c) ≡ none = rw (e, find_end) quiet.0.2 in
      let request : Bytes = m ++ b' ' ∷ [] in
      let count : n + length (b ∷ c) + length (joined cs) + length m + 1
          ≡ n + length (b ∷ c ++ joined cs) + length m + 1 =
        omega (arith, length-append c (joined cs)) in
      let bytes : (buffer ++ (b ∷ c)) ++ (joined cs ++ request)
          ≡ buffer ++ ((b ∷ c ++ joined cs) ++ request) =
        append_assoc buffer (b ∷ c) (joined cs ++ request)
        ∙ ap (λ t. buffer ++ t) (sym (append_assoc (b ∷ c) (joined cs) request)) in
      rounds-more w n b buffer c (chunks cs (chunk (m ++ b' ' ∷ rest) ∷ later)) e'
      ∙ rounds-chunks cs m rest (buffer ++ (b ∷ c)) (n + length (b ∷ c)) later quiet.1 lacks
      ∙ (λ i. (inr (count i), bytes i, record { buffered = rest; arrivals = later }))

-- The line ends at the front, two at most.
abbrev line_ends : Bytes → ℕ
line_ends [] = 0
line_ends (a ∷ []) = if is_line_end a then 1 else 0
line_ends (a ∷ b ∷ rest) = if is_line_end a then (if is_line_end b then 2 else 1) else 0

choose :
    (x y : Bool)
    → ◌≡◌ {A = Result ℕ}
        (if y && x then ok 2 else if x then ok 1 else ok 0)
        (ok (if x then if y then 2 else 1 else 0))
choose true true = refl
choose true false = refl
choose false true = refl
choose false false = refl

-- For a buffer of its size, `get_buffer_skip_count` counts the line ends at the front, up to two.
get_buffer_skip_count-line_ends :
    (buffer : Bytes) → get_buffer_skip_count buffer (length buffer) ≡ ok (line_ends buffer)
unfolding get_buffer_skip_count
get_buffer_skip_count-line_ends [] = ground arith
get_buffer_skip_count-line_ends (a ∷ []) = ground arith
get_buffer_skip_count-line_ends (a ∷ b ∷ rest) =
    let long : leb 2 (length (a ∷ b ∷ rest)) ≡ true = ground arith in
    rw long (choose (is_line_end a) (is_line_end b))
