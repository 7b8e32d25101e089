-- ===== src/Creation/Blocks/Tests.antt =====
-- Tests of the blocks of src/skk/yaskkserv2_make_dictionary/dictionary_creator.rs.
use yaskkserv.Prelude.{
  ℕ, ◌≡◌, refl, [], ◌++◌, Bytes, codes, replicate, Result, ok, err, panic, out_of_fuel,
}
use yaskkserv.Substrings.Positions.{two_way}
use yaskkserv.Substrings.Last.{two_way_back}
use yaskkserv.Creation.Blocks.{
  max_entry_length_loop, informations_loop, max_entry_length_loop, Informations,
  get_max_entry_length, get_dictionary_block_informations,
}

abbrev two_entries : Bytes
two_entries = codes "\na /b/\nab /cd/\n"

max_entry_length-two_entries : get_max_entry_length two_way two_entries ≡ ok 9
unfolding get_max_entry_length max_entry_length_loop
max_entry_length-two_entries = refl

abbrev long_line : ℕ → Bytes
long_line n = codes "a /" ++ replicate n b'x' ++ codes "/\n"

abbrev code_of : Result (Bytes × Informations) → ℕ
code_of (ok _) = 0
code_of (err _) = 1
code_of panic = 2
code_of out_of_fuel = 3

-- An entry above the unit length that is the longest and the last, but not the only one, is taken
-- for an error of the format.
long_last_entry-refused :
    code_of (
      get_dictionary_block_informations two_way two_way_back
        (codes "\n" ++ codes "a /b/\n" ++ long_line 2100)
        0
        [])
    ≡ 1
unfolding get_dictionary_block_informations get_max_entry_length max_entry_length_loop
    informations_loop
long_last_entry-refused = refl

-- A shorter entry above the unit length at the end panics.
shorter_long_entry-panics :
    code_of (
      get_dictionary_block_informations two_way two_way_back
        (codes "\n" ++ long_line 2200 ++ long_line 2100)
        0
        [])
    ≡ 2
unfolding get_dictionary_block_informations get_max_entry_length max_entry_length_loop
    informations_loop
shorter_long_entry-panics = refl
