-- ===== src/Gate/Databuffer/Header.antt =====
-- What `databuffer_readheader` does with the bytes that are not read yet.
use ue4_background.Gate.Databuffer.{Databuffer, header_result}
use ue4_background.Prelude.{
  ℕ, ◌+◌, ◌*◌, ◌%◌, ◌^◌, Option, none, List, [], ◌∷◌, ltb, ◌==◌, if◌then◌else◌, length, take, drop,
}

-- The number that bytes stand for, the highest first, in 32 bits.
abbrev pub big_endian : ℕ → List ℕ → ℕ
big_endian n [] = n
big_endian n (b ∷ bs) = big_endian ((n * 256 + b) % 2 ^ 32) bs

-- On a plain list of bytes: the header is taken off the front, if none is known and it is there.
abbrev pub parse_header : ℕ → ℕ → List ℕ → ℕ × List ℕ
parse_header header_size header bytes =
    if header == 0
    then (if ltb (length bytes) header_size
        then (0, bytes)
        else (big_endian 0 (take header_size bytes), drop header_size bytes))
    else (header, bytes)

-- And the answer: nothing while the header is not there, or the package is not.
abbrev pub answer : ℕ → ℕ → List ℕ → Option ℕ
answer header_size header bytes =
    let (header', rest) = parse_header header_size header bytes in
    if header == 0
    then (if ltb (length bytes) header_size then none else header_result header' (length rest))
    else header_result header' (length rest)
