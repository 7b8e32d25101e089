-- ===== src/Server/Tests.antt =====
-- The reply for a small dictionary.
use yaskkserv.Prelude.{◌≡◌, refl, false, none, some, [], ◌∷◌, ◌++◌, arith, codes, replicate, ok}
use yaskkserv.Connections.{continue}
use yaskkserv.Candidates.{slash}
use yaskkserv.DictionaryFiles.{DictionaryFile, new}
use yaskkserv.DictionaryFiles.Cache.{IsCached}
use yaskkserv.Reader.Tests.{
  environment, file, file-AnswersExactly, new-IsCached, ab-IsListed, informations, ab_key, ab-keyed,
  ab-informed,
}
use yaskkserv.Midashi.{
  DictionaryMidashiKey, get_dictionary_midashi_key, get_block_information_vectors,
  get_ascii_hiragana_vec_index,
}
use yaskkserv.Reader.Lookup.{Environment}
use yaskkserv.Server.{Config, handle_client}
use yaskkserv.Server.Replies.{dictionary, handle_client-found, handle_client-absent}

abbrev config : Config
config = record {
  is_midashi_utf8 = false;
  hostname_and_ip_address_for_protocol_3 = codes "localhost:127.0.0.1";
  pkg_version = codes "0.1.7";
}

handle_client-found_example :
    (d' : DictionaryFile) × (handle_client config environment.tables
        (dictionary environment)
        (codes "1ab ")
        (new 4)
      ≡ (ok (continue, some (b'1' ∷ slash ∷ codes "x/y/" ++ b'\n' ∷ [])), d'))
    × IsCached file d'
handle_client-found_example =
    handle_client-found environment config environment.tables (codes "ab") (codes "x/y/") ab_key
      informations (new 4) refl (omega arith) (omega arith) refl ab-keyed ab-informed
      file-AnswersExactly new-IsCached ab-IsListed

abbrev b_key : DictionaryMidashiKey
b_key = record { k0 = b'b'; k1 = 0; k2 = 0; k3 = 0 }

b-keyed : get_dictionary_midashi_key (codes "b" ++ b' ' ∷ []) ≡ ok b_key
unfolding get_dictionary_midashi_key
b-keyed = refl

abbrev no_blocks : Environment
no_blocks = record environment {
  on_memory = record {
    blocks_offset = 3;
    encoding = 0;
    index_map = [];
    index_ascii_hiragana_vec = replicate 256 [];
  };
}

b-uninformed : get_block_information_vectors no_blocks.on_memory b_key ≡ ok none
unfolding get_block_information_vectors get_ascii_hiragana_vec_index
b-uninformed = refl

handle_client-absent_example :
    handle_client config no_blocks.tables (dictionary no_blocks) (codes "1b ") (new 4)
    ≡ (ok (continue, some (codes "4b " ++ b'\n' ∷ [])), new 4)
handle_client-absent_example =
    handle_client-absent no_blocks config no_blocks.tables (codes "b") b_key (new 4) refl
      (omega arith) (omega arith) refl b-keyed b-uninformed
