-- ===== src/Lib.antt =====
-- yaskkserv2, a server for the SKK input method, and the dictionary that it looks midashis up in.
--
-- A request comes in over a socket as a protocol byte, a midashi in EUC and a space. The server loop
-- keeps a table of sockets (Connections, src/skk/yaskkserv2.rs: `run_loop_listener`,
-- `run_loop_token`, `get_empty_sockets_index`), reads a request from the socket that is ready
-- (Requests, the two `read_until_skk_server`), and replies to it (Server,
-- src/skk/yaskkserv2/server.rs). The reply comes from the dictionary (Reader,
-- src/skk/yaskkserv2/dictionary_reader.rs): the first character of the midashi is a key of the
-- index in memory (Midashi, with src/skk/dictionary.rs and src/skk.rs), the index gives block
-- informations, of which one is chosen (BlockSearch), the block is read from the file
-- (DictionaryFiles, `DictionaryFile`), and the midashi is searched for in it (Substrings is the
-- interface of the crate twoway). Candidates are quoted, merged and freed of duplicates in
-- Candidates (src/skk/candidates.rs), taken from the answers of Google in Suggestions
-- (src/skk/yaskkserv2/request.rs), and converted between EUC and UTF-8 in Encoding
-- (src/skk/encoding_simple.rs and encoding_simple/), whose Setup fills the tables and whose Detect
-- tells the two apart. Prelude holds what the others share, among it
-- `Result`: a value, an error of src/skk/error.rs, a panic, or fuel that has run out.
--
-- The dictionary file is made by Creation (src/skk/yaskkserv2_make_dictionary/dictionary_creator.rs):
-- Keys collects the entries of each key (`create_temporary_block_map`, `create_index_data`), Blocks
-- splits them into blocks (`get_dictionary_block_informations`), IndexData describes the blocks in
-- units, Layout places the parts (`create_dictionary_fixed_header`), and Written is the file
-- (`create`). OnDisk has the structures of the file (`ToFromNeBytes` of src/skk.rs), and Loading sets
-- a dictionary up from it (src/skk/dictionary.rs: `setup`, `validate_except_dictionary_fixed_header`,
-- `create_index_map_and_index_ascii_hiragana_vec`). GoogleCache is the cache of Google's candidates
-- (src/skk/yaskkserv2/google_cache.rs).
--
-- State is passed explicitly: the table of the loop is the record `Loop`, the cached block the
-- record `DictionaryFile`, a socket the bytes that are buffered and the reads to come. A byte is a
-- number below 256, a map an association list, and an index out of range is a panic.
--
-- Fuel: the binary search of BlockSearch has twice the number of blocks and one, since it moves in
-- one direction through the blocks once its step is one; the conversions of Encoding have the length
-- of their input, since a round reads a byte at least; the inner loop of Reader/Completions has the
-- length of its block and one, since a round moves behind the line that it found; the loops of
-- Creation/Blocks have the length of the buffer, since a round moves behind an entry; the reading for
-- the digest in Loading/Setup has one more than the bytes to read, since a round reads one at least.
-- The other loops are by recursion on a list or on the number of rounds left.
--
-- Parameters: the crates twoway, json, sha1 and bincode, the files, the clock, the order of the bytes
-- in a number, the sockets and the poller, and, as an interface of Reader, the Google requests and
-- their cache. In Connections the reading and answering of a request is a parameter too, which may
-- panic. Writes to a socket that fail are only logged by the source, and the log is left out.
--
-- Not modelled: the making of the conversion table from its text, the reading and the making of
-- jisyos, writes of a dictionary file that fail, the HTTP requests to Google, the configuration and
-- the command lines.
mod Prelude
pub mod Connections
pub mod Candidates
pub mod BlockSearch
pub mod Encoding
pub mod Substrings
pub mod Requests
pub mod DictionaryFiles
pub mod Midashi
pub mod OnDisk
pub mod Creation
pub mod Loading
pub mod GoogleCache
pub mod Reader
pub mod Suggestions
pub mod Server
