-- ===== src/Loading/Tests.antt =====
-- Tests of the index of src/skk/dictionary.rs.
use yaskkserv.Loading.Units.{FitsUnit}
use yaskkserv.Prelude.{
  ℕ, ◌+◌, ◌-◌, ◌%◌, min, ◌≡◌, refl, ap, ◌∙◌, true, none, List, [], ◌∷◌, ◌++◌, map, arith, leb,
  if◌then◌else◌, le→leb, Bytes, codes, equal, join, length, take, drop, replicate, length-append,
  length-replicate, take-append, drop-append, ok,
}
use yaskkserv.BlockSearch.{Informations}
use yaskkserv.Midashi.{key, euc}
use yaskkserv.DictionaryFiles.{File, filled, failed}
use yaskkserv.OnDisk.{
  block_header_to_ne_bytes, index_header_to_ne_bytes, offset_length_to_ne_bytes, u32_to_ne_bytes,
  heads_to_ne_bytes, little, sha1sum_length,
}
use yaskkserv.Creation.IndexData.{
  IndexUnit, finish, push_all, push, start, close, unit_to_ne_bytes, block_header,
}
use yaskkserv.Creation.Layout.{to_u32}
use yaskkserv.Creation.Written.{create}
use yaskkserv.Loading.{DictionaryMidashiKey, Index}
use yaskkserv.Loading.Blocks.{Holds}
use yaskkserv.Loading.Lookups.{IsKey, lookup, last_unit}
use yaskkserv.Loading.Setup.{Read, setup, validate_except_dictionary_fixed_header}
use yaskkserv.Loading.Validated.{Reads, validate-equal}
use yaskkserv.Loading.Created.{blank}
use yaskkserv.Loading.Complete.{setup-create}

-- A file of some bytes, and a digest.
abbrev file_of : Bytes → File
file_of content position n =
    if leb (position + n) (length content)
    then filled (take n (drop position content))
    else failed (drop position content)

abbrev read_of : Bytes → Read
read_of content pos most = ok (take (min most (length content - pos)) (drop pos content))

abbrev sha1 : Bytes → Bytes
sha1 b = replicate sha1sum_length (length b % 256)

file_of-Holds : (content : Bytes) → Holds content (file_of content)
file_of-Holds content pre mid post place =
    let inside : leb (length pre + length mid) (length content) ≡ true =
      le→leb _ _
        (omega (arith, ap length place, length-append pre (mid ++ post), length-append mid post)) in
    let rest : drop (length pre) content ≡ mid ++ post =
      ap (drop (length pre)) place ∙ drop-append pre (mid ++ post) in
    rw (inside, rest, take-append mid post) refl

read_of-Reads : (content : Bytes) → Reads content (read_of content)
read_of-Reads content pos most = (
  min most (length content - pos),
  refl,
  omega arith,
  omega arith,
  λ asked left. omega (arith, asked, left),
)

abbrev informations : Informations
informations =
    record { midashi = codes "b"; offset = 16; length = 20 }
    ∷ record { midashi = codes "a"; offset = 0; length = 16 }
    ∷ []

fits : (k : DictionaryMidashiKey) → FitsUnit (record { unit_key = k; informations = informations })
unfolding join
fits k = (
  omega arith,
  (
    ((ground arith, tt), omega arith, omega arith),
    (((ground arith, tt), omega arith, omega arith), tt),
  ),
  omega arith,
  omega arith,
)

abbrev units : List (IndexUnit × Bytes)
units =
    (record { unit_key = key b'a' 0 0 0; informations = informations }, replicate 48 b'X')
    ∷ (record { unit_key = key 0xb0 0xa1 0 0; informations = informations }, replicate 48 b'X')
    ∷ []

abbrev table : Bytes
table = 1 ∷ 2 ∷ 3 ∷ []

setup-create_example :
    (index : Index) × (setup little sha1 7
        (file_of
          (create little sha1 euc table (finish little (push_all little units (start little)))))
        (read_of
          (create little sha1 euc table (finish little (push_all little units (start little)))))
      ≡ ok (
        table,
        record {
          blocks_offset =
              (blank little sha1 euc table
                (finish little (push_all little units (start little)))).blocks_offset;
          encoding = to_u32 euc;
          index_map = index.index_map;
          index_ascii_hiragana_vec = index.index_ascii_hiragana_vec;
        },
      ))
    × ((k : DictionaryMidashiKey)
        → IsKey k
        → lookup k index ≡ last_unit k (map (λ p. p.0) units) (ok none))
unfolding finish push_all push start close unit_to_ne_bytes block_header heads_to_ne_bytes
    u32_to_ne_bytes offset_length_to_ne_bytes index_header_to_ne_bytes block_header_to_ne_bytes join
setup-create_example =
    setup-create little sha1 euc table units
      (file_of
        (create little sha1 euc table (finish little (push_all little units (start little)))))
      (read_of
        (create little sha1 euc table (finish little (push_all little units (start little)))))
      7
      (file_of-Holds
        (create little sha1 euc table (finish little (push_all little units (start little)))))
      (read_of-Reads
        (create little sha1 euc table (finish little (push_all little units (start little)))))
      (omega arith) (λ b. length-replicate {A = ℕ} sha1sum_length (length b % 256)) (omega arith)
      (fits (key b'a' 0 0 0), (fits (key 0xb0 0xa1 0 0), tt))
      (((omega arith, omega arith), omega arith), (((omega arith, omega arith), omega arith), tt))
      (omega arith, (omega arith, tt))

abbrev content : Bytes
content = replicate 256 0 ++ 1 ∷ 2 ∷ 3 ∷ []

validate-equal_example :
    validate_except_dictionary_fixed_header sha1 2 (read_of content) [] 259 (sha1 (1 ∷ 2 ∷ 3 ∷ []))
    ≡ ok tt
unfolding equal
validate-equal_example =
    validate-equal sha1 content (read_of content) 2 259 [] (sha1 (1 ∷ 2 ∷ 3 ∷ []))
      (read_of-Reads content) (omega arith) (omega arith) (omega arith) (omega arith)
