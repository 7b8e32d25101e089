-- ===== src/Encoding/Rounds.antt =====
-- What a round of a conversion promises, and the loop around it: src/skk/encoding_simple/euc.rs.
use yaskkserv.Prelude.{
  ℕ, ◌+◌, ◌≤◌, ◌<◌, ◌≡◌, refl, ◌≢◌, inl, inr, ◌++◌, arith, ◌==◌, Bool-cases, Bytes, length, drop,
  length-drop, Result, ok,
}
use yaskkserv.Encoding.{
  Tables, Progress, EucResult, nop, break, error_exit, euc_2_to_utf8_vec_index_maximum,
  utf8_3_to_euc_vec_index_maximum,
}
use yaskkserv.Encoding.Decode.{finish_round}

-- The two vectors have the lengths that `setup_map` gives them.
pub record IsSetUp (t : Tables) : Type 0 where
  pub euc_2 : length t.euc_2_to_utf8_vec ≡ euc_2_to_utf8_vec_index_maximum + 1
  pub utf8_3 : length t.utf8_3_to_euc_vec ≡ utf8_3_to_euc_vec_index_maximum + 1

abbrev pub Returns {ℓ} : {A : Type ℓ} → Result A → Type ℓ
Returns {A} r = (a : A) × (r ≡ ok a)

-- A round that goes on or stops, but gives no error; it goes on only past at least one byte.
pub record IsProgress (unread : Bytes) (p : Progress) : Type 0 where
  pub no_error : p.result ≢ error_exit
  pub moves : p.result ≡ nop → 0 < p.advance
  pub inside : p.advance ≤ length unread

abbrev pub Proceeds : Bytes → Result Progress → Type 0
Proceeds unread r = (p : Progress) × (r ≡ ok p) × IsProgress unread p

pub goes_on :
    (unread pushed : Bytes) (n : ℕ)
    → 0 < n
    → n ≤ length unread
    → Proceeds unread (ok (record { result = nop; pushed = pushed; advance = n }))
goes_on unread pushed n pos le =
    (_, refl, record { no_error = λ e. cc; moves = λ _. pos; inside = le })

pub stops :
    (unread pushed : Bytes)
    → Proceeds unread (ok (record { result = break; pushed = pushed; advance = 0 }))
stops unread pushed =
    (_, refl, record { no_error = λ e. cc; moves = λ e. cc; inside = omega arith })

left_shorter :
    (unread : Bytes) (n : ℕ) → 0 < n → 0 < length unread → length (drop n unread) < length unread
left_shorter unread n h pos = omega (arith, length-drop n unread)

-- A round that proceeds is followed by rounds on fewer bytes, or by none.
pub finish_round-Returns :
    (again : Bytes → Bytes → Result Bytes) (unread result : Bytes) (p : Progress)
    → IsProgress unread p
    → 0 < length unread
    → ((left pushed : Bytes)
        → length left < length unread
        → 0 < length left
        → Returns (again left pushed))
    → Returns (finish_round again unread result p)
finish_round-Returns again unread result p h pos later = go p.result refl
  where
    go : (r : EucResult) → p.result ≡ r → Returns (finish_round again unread result p)
    go break e = (result ++ p.pushed, unfold finish_round in ground (arith, e))
    go error_exit e = absurd (h.no_error e)
    go nop e = elim (Bool-cases (length (drop p.advance unread) == 0)) [
      | inl done ↦ (result ++ p.pushed, unfold finish_round in ground (arith, e, done))
      | inr more ↦
          let (out, r) =
            later (drop p.advance unread) (result ++ p.pushed)
              (left_shorter unread p.advance (h.moves e) pos) (ground (arith, more)) in
          (out, unfold finish_round in ground (arith, e, more, r))
    ]
