-- ===== src/Server/Replies.antt =====
-- The replies of src/skk/yaskkserv2/server.rs, with the dictionary of
-- src/skk/yaskkserv2/dictionary_reader.rs in place of the interface.
use yaskkserv.Prelude.{
  ℕ, ◌+◌, ◌≤◌, ◌≡◌, refl, ap, true, false, none, some, [], ◌∷◌, ◌++◌, arith, ◌==◌, Bytes, length,
  length-append, ◌>>=◌, ok,
}
use yaskkserv.BlockSearch.{Informations}
use yaskkserv.DictionaryFiles.{DictionaryFile}
use yaskkserv.DictionaryFiles.Cache.{AnswersExactly, IsCached}
use yaskkserv.Midashi.{
  DictionaryMidashiKey, get_dictionary_midashi_key, get_block_information_vectors,
}
use yaskkserv.Candidates.{slash}
use yaskkserv.Connections.{continue}
use yaskkserv.Encoding.{Tables}
use yaskkserv.Reader.{is_empty_candidates}
use yaskkserv.Reader.Answers.{IsListed, read_candidates-found, read_candidates-absent}
use yaskkserv.Reader.Lookup.{Environment, disable, read_candidates, read_abbrev}
use yaskkserv.Server.{
  Dictionary, Config, handle_client, handle_client_protocol_1, last_byte, echo, recode, reply_1,
  validate_buffer_for_protocol_1_and_4,
}

abbrev pub dictionary : Environment → Dictionary DictionaryFile
dictionary env = record { read_candidates = read_candidates env; read_abbrev = read_abbrev env }

-- A request in EUC, without Google, for a listed midashi of 1 to 2042 bytes is answered by `b'1'`, a
-- slash, its candidates and a line feed, and the connection is kept: for a file that fills what it is
-- asked for, and a buffer in step with it, which it stays.
pub handle_client-found :
    (env : Environment) (config : Config) (tables : Tables) (midashi candidates : Bytes)
    (key : DictionaryMidashiKey) (informations : Informations) (d : DictionaryFile)
    → config.is_midashi_utf8 ≡ false
    → 1 ≤ length midashi
    → length midashi ≤ 2042
    → env.google_timing ≡ disable
    → get_dictionary_midashi_key (midashi ++ b' ' ∷ []) ≡ ok key
    → get_block_information_vectors env.on_memory key ≡ ok (some informations)
    → AnswersExactly env.file
    → IsCached env.file d
    → IsListed env.file env.on_memory.blocks_offset informations midashi candidates
    → (d' : DictionaryFile) × (handle_client config tables
          (dictionary env)
          (b'1' ∷ midashi ++ b' ' ∷ [])
          d
        ≡ (ok (continue, some (b'1' ∷ slash ∷ candidates ++ b'\n' ∷ [])), d'))
      × IsCached env.file d'
unfolding handle_client handle_client_protocol_1 recode reply_1 validate_buffer_for_protocol_1_and_4
    is_empty_candidates
handle_client-found env config tables midashi candidates key informations d euc low high off keyed
      informed exact cached listed =
    let (d', found, cached') =
      read_candidates-found env midashi candidates key informations d off keyed informed exact
        cached listed in
    let size : length (midashi ++ b' ' ∷ []) ≡ length midashi + 1 =
      length-append midashi (b' ' ∷ []) in
    let valid : validate_buffer_for_protocol_1_and_4 (b'1' ∷ midashi ++ b' ' ∷ []) ≡ true =
      ground (arith, size, low, high) in
    let some_found : (length (b'1' ∷ slash ∷ candidates) == 1) ≡ false = ground arith in
    (d', rw (euc, valid, found, some_found, handle_client) refl, cached')

last_byte-append : (b : ℕ) (xs : Bytes) (c : ℕ) → last_byte (b ∷ xs ++ c ∷ []) ≡ some c
last_byte-append b [] c = refl
last_byte-append b (x ∷ xs) c = last_byte-append x xs c

-- A request in EUC, without Google, of 1 to 2042 bytes for a midashi whose key has no blocks, is
-- answered by the request with `b'4'` for its first byte and a line feed, and the connection and the
-- cached block are kept.
pub handle_client-absent :
    (env : Environment) (config : Config) (tables : Tables) (midashi : Bytes)
    (key : DictionaryMidashiKey) (d : DictionaryFile)
    → config.is_midashi_utf8 ≡ false
    → 1 ≤ length midashi
    → length midashi ≤ 2042
    → env.google_timing ≡ disable
    → get_dictionary_midashi_key (midashi ++ b' ' ∷ []) ≡ ok key
    → get_block_information_vectors env.on_memory key ≡ ok none
    → handle_client config tables (dictionary env) (b'1' ∷ midashi ++ b' ' ∷ []) d
      ≡ (ok (continue, some ((b'4' ∷ midashi ++ b' ' ∷ []) ++ b'\n' ∷ [])), d)
unfolding handle_client handle_client_protocol_1 recode reply_1 validate_buffer_for_protocol_1_and_4
    is_empty_candidates echo
handle_client-absent env config tables midashi key d euc low high off keyed uninformed =
    let absent : read_candidates env (b'1' ∷ midashi ++ b' ' ∷ []) d ≡ (ok (b'1' ∷ []), d) =
      read_candidates-absent env midashi key d off keyed uninformed in
    let size : length (midashi ++ b' ' ∷ []) ≡ length midashi + 1 =
      length-append midashi (b' ' ∷ []) in
    let valid : validate_buffer_for_protocol_1_and_4 (b'1' ∷ midashi ++ b' ' ∷ []) ≡ true =
      ground (arith, size, low, high) in
    let last : last_byte (b'4' ∷ midashi ++ b' ' ∷ []) ≡ some b' ' =
      last_byte-append b'4' midashi b' ' in
    let request : Bytes = b'4' ∷ midashi ++ b' ' ∷ [] in
    let echoed : echo request ≡ request ++ b'\n' ∷ [] = rw (last, echo) refl in
    let replied : reply_1 (ok (b'1' ∷ [])) (b'1' ∷ midashi ++ b' ' ∷ [])
        ≡ ok (request ++ b'\n' ∷ []) =
      ap ok echoed in
    rw (euc, valid, absent, handle_client)
      (ap (λ reply. (reply >>= (λ bytes. ok (continue, some bytes)), d)) replied)
