-- ===== src/Reader/Tests.antt =====
-- A small dictionary, its lookups, and the theorems at them.
use yaskkserv.Prelude.{
  ◌≡◌, refl, inl, inr, false, some, [], ◌∷◌, ◌++◌, arith, ◌==◌, if◌then◌else◌, Bool-cases, Bytes,
  codes, less, replicate, length-replicate, ok,
}
use yaskkserv.Substrings.Positions.{two_way}
use yaskkserv.BlockSearch.{Informations, skip}
use yaskkserv.DictionaryFiles.{filled, File, new}
use yaskkserv.DictionaryFiles.Cache.{AnswersExactly, IsCached}
use yaskkserv.Midashi.{
  DictionaryMidashiKey, get_dictionary_midashi_key, get_block_information_vectors,
  get_ascii_hiragana_vec_index,
}
use yaskkserv.Reader.{search_block, add_candidates}
use yaskkserv.Reader.Blocks.{search_block-entry}
use yaskkserv.Reader.Answers.{IsListed}
use yaskkserv.Reader.Completions.{outer}
use yaskkserv.Reader.Completions.Fuel.{Ends, outer-Ends}
use yaskkserv.Reader.Lookup.{Environment, disable}

abbrev pub block : Bytes
block = codes "\nab /x/y/\n"

-- A file that reads as the block wherever ten bytes are asked for, and as zeros elsewhere.
abbrev pub file : File
file seek n = if n == 10 then filled block else filled (replicate n 0)

pub file-AnswersExactly : AnswersExactly file
file-AnswersExactly seek n = elim (Bool-cases (n == 10)) [
  | inl e ↦ rw e (ground (arith, e))
  | inr e ↦ rw e (length-replicate n 0)
]

abbrev pub informations : Informations
informations = record { midashi = codes "ab"; offset = 4; length = 10 } ∷ []

pub new-IsCached : IsCached file (new 4)
unfolding new
new-IsCached = record { bytes = []; there = refl; kept = refl }

pub ab-IsListed : IsListed file 3 informations (codes "ab") (codes "x/y/")
unfolding skip less
ab-IsListed = record {
  unit = record { midashi = codes "ab"; offset = 4; length = 10 };
  block = block;
  before = [];
  after = [];
  ordered = tt;
  indexed = refl;
  held = refl;
  line = (refl, λ j lt. elim lt [ ]);
  one_line = (omega arith, (omega arith, (omega arith, (omega arith, tt))));
}

abbrev pub environment : Environment
environment = record {
  two_way = two_way;
  file = file;
  tables = record {
    euc_2_to_utf8_vec = [];
    utf8_3_to_euc_vec = [];
    euc_3_to_utf8_map = [];
    utf8_2_4_to_euc_map = [];
    combine_euc_to_utf8_map = [];
    combine_utf8_4_to_euc_map = [];
    combine_utf8_6_to_euc_map = [];
  };
  services = record {
    request_google_japanese_input = λ u. inr [];
    request_google_suggest = λ u. inr [];
    get_candidates = λ u. [];
    write_candidates = λ u c. inr tt;
  };
  on_memory = record {
    blocks_offset = 3;
    encoding = 0;
    index_map = [];
    index_ascii_hiragana_vec = replicate 97 [] ++ informations ∷ [];
  };
  google_timing = disable;
  is_google_cache_enabled = false;
  is_google_suggest_enabled = false;
  max_server_completions = 64;
}

abbrev pub ab_key : DictionaryMidashiKey
ab_key = record { k0 = b'a'; k1 = 0; k2 = 0; k3 = 0 }

pub ab-keyed : get_dictionary_midashi_key (codes "ab" ++ b' ' ∷ []) ≡ ok ab_key
unfolding get_dictionary_midashi_key
ab-keyed = refl

pub ab-informed :
    get_block_information_vectors environment.on_memory ab_key ≡ ok (some informations)
unfolding get_block_information_vectors get_ascii_hiragana_vec_index
ab-informed = refl

search_block-entry_example :
    search_block two_way (codes "ab") block (b'1' ∷ []) ≡ add_candidates (codes "x/y/") (b'1' ∷ [])
search_block-entry_example =
    search_block-entry two_way (codes "ab") block [] (codes "x/y/") [] (b'1' ∷ [])
      (refl, λ j lt. elim lt [ ]) (omega arith, (omega arith, (omega arith, (omega arith, tt))))

outer-Ends_example :
    Ends (outer two_way file (codes "a") informations 3 64 0 (new 4) 0 (b'1' ∷ [])).0
outer-Ends_example =
    outer-Ends two_way file (codes "a") informations 3 64 0 (new 4) 0 (b'1' ∷ []) (omega arith)
