-- ===== src/Candidates/Quote.antt =====
-- Quoting, and the trimming of one slash: src/skk/candidates.rs, `quote_and_add_prefix` and
-- `trim_one_slash`.
use yaskkserv.Prelude.{
  ℕ, suc, ◌-◌, ◌<◌, ◌≡◌, refl, sym, ◌∙◌, ◌≢◌, true, false, none, some, [], ◌∷◌, ◌++◌, append_assoc,
  append-nil, arith, ◌==◌, if◌then◌else◌, Bytes, length, take, length-append, take-append, All,
  All-append,
}
use yaskkserv.Candidates.{
  slash, semicolon, is_special, need_quote, quote_byte, quote_onto, quote_and_add_prefix, byte_is,
  trim_one_slash,
}

-- The quoted text, with no accumulator.
abbrev pub quoted : Bytes → Bytes
quoted [] = []
quoted (c ∷ cs) = quote_byte c ++ quoted cs

quote_onto-quoted : (s result : Bytes) → quote_onto result s ≡ result ++ quoted s
unfolding quote_onto
quote_onto-quoted [] result = sym (append-nil result)
quote_onto-quoted (c ∷ cs) result = simp (quote_onto-quoted cs, append_assoc)

pub quote_and_add_prefix-quoted :
    (s : Bytes) (prefix : ℕ) → quote_and_add_prefix s (some prefix) ≡ prefix ∷ quoted s
unfolding quote_and_add_prefix
quote_and_add_prefix-quoted s prefix = quote_onto-quoted s (prefix ∷ [])

-- A byte that would end a candidate, its annotation, or the line.
abbrev pub IsPlain : ℕ → Type 0
IsPlain c = (c ≢ slash) × (c ≢ semicolon) × (c ≢ b'\n') × (c ≢ b'\r')

quote_byte-IsPlain : (c : ℕ) → All IsPlain (quote_byte c)
unfolding quote_byte
quote_byte-IsPlain c = ground arith

pub quoted-IsPlain : (s : Bytes) → All IsPlain (quoted s)
quoted-IsPlain [] = tt
quoted-IsPlain (c ∷ cs) =
    All-append IsPlain (quote_byte c) (quoted cs) (quote_byte-IsPlain c) (quoted-IsPlain cs)

-- Quoted text holds no slash, no semicolon and no line end, whatever the source holds.
pub quote_and_add_prefix-IsPlain : (s : Bytes) → All IsPlain (quote_and_add_prefix s none)
unfolding quote_and_add_prefix
quote_and_add_prefix-IsPlain s = rw quote_onto-quoted (quoted-IsPlain s)

quoted_id : (s : Bytes) → need_quote s ≡ false → quoted s ≡ s
unfolding need_quote is_special quote_byte
quoted_id [] h = refl
quoted_id (c ∷ cs) h = ground (arith, quoted_id cs)

special_long : (c : ℕ) → is_special c ≡ true → c ≢ b'\r' → c ≢ b'\n' → 1 < length (quote_byte c)
unfolding is_special quote_byte
special_long c h r n = ground arith

-- Text for which `need_quote` is false is copied as it stands.
pub quote_and_add_prefix_id : (s : Bytes) → need_quote s ≡ false → quote_and_add_prefix s none ≡ s
unfolding quote_and_add_prefix
quote_and_add_prefix_id s h = quote_onto-quoted s [] ∙ quoted_id s h

byte_is-length : (s : Bytes) (c : ℕ) → byte_is (s ++ c ∷ []) (length s) slash ≡ (c == slash)
unfolding byte_is
byte_is-length [] c = refl
byte_is-length (x ∷ s) c = byte_is-length s c

take_all : (s : Bytes) (n : ℕ) → length s ≡ n → take n s ≡ s
take_all s n e = rw (← e, ← append-nil s) (rw append-nil (rw append-nil at (take-append s [])))

pred_lem : (n : ℕ) → suc (suc n) - 1 ≡ suc n
pred_lem n = omega arith

trim_cons :
    (rest : Bytes) (n : ℕ)
    → length rest ≡ suc n
    → trim_one_slash (slash ∷ rest) ≡ (if byte_is rest n slash then take n rest else rest)
unfolding trim_one_slash byte_is
trim_cons rest n e = rw (e, pred_lem) (ground (arith, take_all rest (suc n) e))

-- One slash is taken off at each end, and no more: `body` may begin or end with further slashes.
pub trim_one_slash_both : (body : Bytes) → trim_one_slash (slash ∷ (body ++ slash ∷ [])) ≡ body
trim_one_slash_both body =
    trim_cons (body ++ slash ∷ []) (length body) (omega (arith, length-append body (slash ∷ [])))
    ∙ rw (byte_is-length, take-append)

-- Where the text begins with a slash and does not end in one, the leading slash is taken off.
pub trim_one_slash_left :
    (body : Bytes) (c : ℕ) → c ≢ slash → trim_one_slash (slash ∷ (body ++ c ∷ [])) ≡ body ++ c ∷ []
trim_one_slash_left body c h =
    trim_cons (body ++ c ∷ []) (length body) (omega (arith, length-append body (c ∷ [])))
    ∙ rw byte_is-length (ground arith)
