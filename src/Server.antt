-- ===== src/Server.antt =====
-- `Server` of src/skk/yaskkserv2/server.rs: the reply to one request. `DictionaryReader` is an
-- interface here, which Server/Replies fills. A write that fails is logged and otherwise
-- ignored, so a handler gives the buffer that it writes, if any. `PKG_VERSION` is cargo's.
pub mod Replies
mod Tests
use yaskkserv.Prelude.{
  ℕ, ◌+◌, ◌*◌, Bool, not, ◌||◌, Option, none, some, [], ◌∷◌, ◌++◌, ◌==◌, if◌then◌else◌, Bytes,
  codes, within, length, Result, ◌>>=◌, ok, err, panic, out_of_fuel,
}
use yaskkserv.Connections.{HandleClientResult, continue, exit}
use yaskkserv.Reader.{is_empty_candidates}
use yaskkserv.Encoding.{Tables}
use yaskkserv.Encoding.Encode.{encode}

-- What a server needs of its dictionary.
pub record Dictionary (F : Type 0) : Type 0 where
  pub read_candidates : Bytes → F → Result Bytes × F
  pub read_abbrev : Bytes → F → Result Bytes × F

-- The fields of `Config` that the server reads.
pub record Config : Type 0 where
  pub is_midashi_utf8 : Bool
  pub hostname_and_ip_address_for_protocol_3 : Bytes
  pub pkg_version : Bytes

abbrev pub protocol_result_error : Bytes
protocol_result_error = codes "0\n"

abbrev protocol_minimum_length : ℕ
protocol_minimum_length = 3

abbrev protocol_maximum_length : ℕ
protocol_maximum_length = 510 * 2 + 1024

unfoldable pub validate_buffer_for_protocol_1_and_4 : Bytes → Bool
validate_buffer_for_protocol_1_and_4 buffer =
    within protocol_minimum_length protocol_maximum_length (length buffer)

abbrev pub last_byte : Bytes → Option ℕ
last_byte [] = none
last_byte (b ∷ []) = some b
last_byte (b ∷ c ∷ rest) = last_byte (c ∷ rest)

-- `buffer`, ended by a line feed.
unfoldable pub echo : Bytes → Bytes
echo buffer = elim (last_byte buffer) [
  | none ↦ protocol_result_error
  | some last ↦ if last == b'\n' || last == b'\r' then buffer else buffer ++ b'\n' ∷ []
]

-- `buffer[0] = b`, which panics on an empty buffer.
abbrev set_first : ℕ → Bytes → Result Bytes
set_first b [] = panic
set_first b (c ∷ rest) = ok (b ∷ rest)

-- The reply of `handle_client_protocol_1` to what the dictionary answers.
unfoldable pub reply_1 : Result Bytes → Bytes → Result Bytes
reply_1 (ok candidates) buffer =
    if is_empty_candidates candidates
    then set_first b'4' buffer >>= (λ buffer'. ok (echo buffer'))
    else ok (candidates ++ b'\n' ∷ [])
reply_1 (err e) buffer = ok protocol_result_error
reply_1 panic buffer = panic
reply_1 out_of_fuel buffer = out_of_fuel

-- The reply of `handle_client_protocol_4`.
unfoldable pub reply_4 : Result Bytes → Bytes → Result Bytes
reply_4 (ok candidates) buffer =
    if is_empty_candidates candidates then ok (echo buffer) else ok (candidates ++ b'\n' ∷ [])
reply_4 (err e) buffer = ok protocol_result_error
reply_4 panic buffer = panic
reply_4 out_of_fuel buffer = out_of_fuel

module _ {F : Type 0} (config : Config) (tables : Tables) (dictionary : Dictionary F) where
  unfoldable pub handle_client_protocol_1 : Bytes → F → Result Bytes × F
  handle_client_protocol_1 buffer f =
      if not (validate_buffer_for_protocol_1_and_4 buffer)
      then (ok protocol_result_error, f)
      else let (answer, f') = dictionary.read_candidates buffer f in (reply_1 answer buffer, f')

  unfoldable pub handle_client_protocol_4 : Bytes → F → Result Bytes × F
  handle_client_protocol_4 buffer f =
      if not (validate_buffer_for_protocol_1_and_4 buffer)
      then (ok protocol_result_error, f)
      else let (answer, f') = dictionary.read_abbrev buffer f in (reply_4 answer buffer, f')

  -- The midashi in EUC, where the client sends UTF-8.
  unfoldable pub recode : (Bytes → F → Result Bytes × F) → Bytes → F → Result Bytes × F
  recode handle buffer f =
      if config.is_midashi_utf8
      then elim (encode tables buffer) [
        | ok utf8_to_euc_buffer ↦ handle utf8_to_euc_buffer f
        | err e ↦ (ok protocol_result_error, f)
        | panic ↦ (panic, f)
        | out_of_fuel ↦ (out_of_fuel, f)
      ]
      else handle buffer f

  abbrev write : Result Bytes × F → Result (HandleClientResult × Option Bytes) × F
  write (reply, f) = (reply >>= (λ bytes. ok (continue, some bytes)), f)

  unfoldable pub handle_client : Bytes → F → Result (HandleClientResult × Option Bytes) × F
  handle_client [] f = (panic, f)
  handle_client (b ∷ rest) f =
      if b == b'0'
      then (ok (exit, none), f)
      else if b == b'1'
      then write (recode handle_client_protocol_1 (b ∷ rest) f)
      else if b == b'2'
      then write (ok (config.pkg_version ++ b' ' ∷ []), f)
      else if b == b'3'
      then write (ok (config.hostname_and_ip_address_for_protocol_3 ++ b' ' ∷ []), f)
      else if b == b'4'
      then write (recode handle_client_protocol_4 (b ∷ rest) f)
      else write (ok protocol_result_error, f)
