-- ===== src/Encoding/Tests.antt =====
-- Runs of the conversions, and the theorems at them.
use yaskkserv.Encoding.Unicode.{
  scalar_of_utf8-convert_unicode_to_utf8, convert_unicode_to_utf8, scalar_of_utf8,
}
use yaskkserv.Prelude.{
  ℕ, ◌+◌, ◌≡◌, refl, ◌∙◌, inl, inr, some, [], ◌∷◌, arith, Bytes, codes, set, replicate,
  length-replicate, length-set, ok,
}
use yaskkserv.Encoding.{
  Tables, euc_2_to_utf8_vec_index_maximum, utf8_3_to_euc_vec_index_maximum, unknown,
}
use yaskkserv.Encoding.Bounds.{utf8_index, utf8_index-injective, utf8_index_collides}
use yaskkserv.OnDisk.{little, u32_from_ne_bytes, to_ne_u32}
use yaskkserv.Encoding.Setup.{setup}
use yaskkserv.Encoding.Setup.Filled.{Fills}
use yaskkserv.Encoding.Setup.Combined.{setup-Fills}
use yaskkserv.Encoding.Decode.{decode}
use yaskkserv.Encoding.Encode.{encode}
use yaskkserv.Encoding.Rounds.{IsSetUp, Returns}
use yaskkserv.Encoding.Decode.Total.{decode-Returns}
use yaskkserv.Encoding.Encode.Total.{encode-Returns}
use yaskkserv.Encoding.Decode.Characters.{
  single, double, triple, spell_all, meaning_all, decode-spell_all,
}

-- HIRAGANA LETTER A, and nothing else.
tables : Tables
tables = record {
  euc_2_to_utf8_vec =
      set (replicate (euc_2_to_utf8_vec_index_maximum + 1) (0 ∷ 0 ∷ 0 ∷ 0 ∷ [])) 278
        (0xe3 ∷ 0x81 ∷ 0x82 ∷ 0 ∷ []);
  utf8_3_to_euc_vec =
      set (replicate (utf8_3_to_euc_vec_index_maximum + 1) (0 ∷ 0 ∷ 0 ∷ [])) 4612
        (0xa4 ∷ 0xa2 ∷ 0 ∷ []);
  euc_3_to_utf8_map = [];
  utf8_2_4_to_euc_map = [];
  combine_euc_to_utf8_map = [];
  combine_utf8_4_to_euc_map = [];
  combine_utf8_6_to_euc_map = [];
}

tables-IsSetUp : IsSetUp tables
unfolding tables
tables-IsSetUp = record {
  euc_2 =
      length-set {A = Bytes} (replicate (euc_2_to_utf8_vec_index_maximum + 1) (0 ∷ 0 ∷ 0 ∷ 0 ∷ []))
        278 (0xe3 ∷ 0x81 ∷ 0x82 ∷ 0 ∷ [])
      ∙ length-replicate {A = Bytes} (euc_2_to_utf8_vec_index_maximum + 1) (0 ∷ 0 ∷ 0 ∷ 0 ∷ []);
  utf8_3 =
      length-set {A = Bytes} (replicate (utf8_3_to_euc_vec_index_maximum + 1) (0 ∷ 0 ∷ 0 ∷ [])) 4612
        (0xa4 ∷ 0xa2 ∷ 0 ∷ [])
      ∙ length-replicate {A = Bytes} (utf8_3_to_euc_vec_index_maximum + 1) (0 ∷ 0 ∷ 0 ∷ []);
}

hexadecimal : unknown (0x8f ∷ 0xa1 ∷ []) ≡ codes "&#x8fa1"
unfolding unknown
hexadecimal = refl

decode-Returns_example : Returns (decode tables (0xa4 ∷ 0xa2 ∷ 0x8f ∷ []))
decode-Returns_example = decode-Returns tables (0xa4 ∷ 0xa2 ∷ 0x8f ∷ []) tables-IsSetUp

encode-Returns_example : Returns (encode tables (0xe3 ∷ 0x81 ∷ 0x82 ∷ 0xff ∷ []))
encode-Returns_example = encode-Returns tables (0xe3 ∷ 0x81 ∷ 0x82 ∷ 0xff ∷ []) tables-IsSetUp

decode-spell_all_example :
    decode tables (spell_all (single b'a' ∷ double 0xa4 0xa2 ∷ triple 0xa1 0xa1 ∷ []))
    ≡ ok (meaning_all tables (single b'a' ∷ double 0xa4 0xa2 ∷ triple 0xa1 0xa1 ∷ []))
decode-spell_all_example =
    decode-spell_all tables (single b'a' ∷ double 0xa4 0xa2 ∷ triple 0xa1 0xa1 ∷ []) tables-IsSetUp
      (omega arith, (inr (omega arith), (tt, tt)))

utf8_index-injective_example : ◌≡◌ {A = ℕ} 0x3042 0x3042
utf8_index-injective_example =
    utf8_index-injective 0x3042 0x3042 (inl (omega arith)) (inl (omega arith)) refl

utf8_index_collides_example : utf8_index 0xa588 ≡ utf8_index (0xa588 + 0x5979)
utf8_index_collides_example = utf8_index_collides 0xa588 (omega arith) (omega arith)

scalar_of_utf8-convert_unicode_to_utf8_example :
    scalar_of_utf8 (convert_unicode_to_utf8 0x3042) ≡ some 0x3042
scalar_of_utf8-convert_unicode_to_utf8_example =
    scalar_of_utf8-convert_unicode_to_utf8 0x3042 (omega arith)

-- A header of sixteen bytes, HIRAGANA LETTER BIDAKUON NGA, which is two code points, and HIRAGANA
-- LETTER A.
abbrev table_bytes : Bytes
table_bytes =
    0 ∷ 0 ∷ 0 ∷ 0 ∷ 16 ∷ 0 ∷ 0 ∷ 0 ∷ 1 ∷ 0 ∷ 0 ∷ 0 ∷ 1 ∷ 0 ∷ 0 ∷ 0 ∷ 0xa4 ∷ 0xf7 ∷ 0 ∷ 0xe3 ∷ 0x81
    ∷ 0x8b ∷ 0 ∷ 0xe3 ∷ 0x82 ∷ 0x9a ∷ 0 ∷ 0xa4 ∷ 0xa2 ∷ 0 ∷ 0xe3 ∷ 0x81 ∷ 0x82 ∷ 0 ∷ []

setup-Fills_example : Fills (setup little table_bytes)
unfolding u32_from_ne_bytes to_ne_u32
setup-Fills_example = setup-Fills little table_bytes 16 1 1 refl refl refl (omega arith) (refl, tt)
