-- ===== src/Netpack.antt =====
-- lualib-src/lua-netpack.c: packages out of the pieces of a byte stream. A package is a big-endian
-- 16-bit size and that many bytes. The queue of packages is a list, oldest first, in place of the ring;
-- what goes to Lua is the value returned.
pub mod Chains
pub mod Frames
pub mod Feed
pub mod Filter
pub mod Pack
pub mod Stream
use ue4_background.Prelude.{
  ℕ, zero, suc, ◌+◌, ◌-◌, ◌*◌, ◌/◌, ◌%◌, ◌^◌, not, Option, none, some, List, [], ◌∷◌, ◌++◌, ltb,
  ◌==◌, if◌then◌else◌, length, take, drop, update,
}

-- `struct netpack`; `size` is the length of the buffer.
pub record Netpack : Type 0 where
  pub id : ℕ
  pub buffer : List ℕ

-- How far an incomplete package has come: `read` is -1, or the number of bytes filled so far.
pub data Progress : Type 0 where
  header : ℕ → Progress
  body : (size : ℕ) (filled : List ℕ) → Progress

-- `struct uncomplete`, without the link.
pub record Uncomplete : Type 0 where
  pub id : ℕ
  pub progress : Progress

-- `struct queue`: the chains of the hash table, and the packages.
pub record Queue : Type 0 where
  pub hash : ℕ → List Uncomplete
  pub queue : List Netpack

-- The queue that `get_queue` makes when there is none.
unfoldable pub new_queue : Queue
new_queue = record { hash = λ h. []; queue = [] }

-- `hash_fd`, for a file descriptor that is not negative.
unfoldable pub hash_fd : ℕ → ℕ
hash_fd fd = (fd / 2 ^ 24 + fd / 2 ^ 12 + fd) % 2 ^ 32 % 4096

-- The first entry of the chain with the id, and the chain without it.
abbrev pub take_out : ℕ → List Uncomplete → Option Uncomplete × List Uncomplete
take_out fd [] = (none, [])
take_out fd (u ∷ us) =
    let (found, rest) = take_out fd us in if u.id == fd then (some u, us) else (found, u ∷ rest)

unfoldable pub find_uncomplete : Queue → ℕ → Option Uncomplete × Queue
find_uncomplete q fd =
    let (found, rest) = take_out fd (q.hash (hash_fd fd)) in
    (found, record q { hash = update q.hash (hash_fd fd) rest })

unfoldable pub save_uncomplete : Queue → ℕ → Progress → Queue
save_uncomplete q fd progress =
    let h = hash_fd fd in
    record q { hash = update q.hash h (record { id = fd; progress = progress } ∷ q.hash h) }

unfoldable pub push_data : Queue → ℕ → List ℕ → Queue
push_data q fd buffer = record q { queue = q.queue ++ record { id = fd; buffer = buffer } ∷ [] }

abbrev pub read_size : ℕ → ℕ → ℕ
read_size b₀ b₁ = b₀ * 256 + b₁

-- `push_more`, with the rounds left: each round takes two bytes at least. It is not called with no
-- bytes.
unfoldable pub push_more : ℕ → Queue → ℕ → List ℕ → Queue
push_more zero q fd buffer = q
push_more (suc n) q fd [] = q
push_more (suc n) q fd (b ∷ []) = save_uncomplete q fd (header b)
push_more (suc n) q fd (b₀ ∷ b₁ ∷ rest) =
    let pack_size = read_size b₀ b₁ in
    let pushed = push_data q fd (take pack_size rest) in
    let more = push_more n pushed fd (drop pack_size rest) in
    if ltb (length rest) pack_size
    then save_uncomplete q fd (body pack_size rest)
    else if ltb pack_size (length rest)
    then more
    else pushed

-- What `filter_data_` hands to Lua: nothing, one package, or the word that the queue has more.
pub data Reply : Type 0 where
  nothing : Reply
  whole : ℕ → List ℕ → Reply
  more : Reply

-- The part of `filter_data_` that fills an incomplete package.
unfoldable pub fill : Queue → ℕ → ℕ → List ℕ → List ℕ → Reply × Queue
fill q fd size filled buffer =
    let need = size - length filled in
    let filled_up = filled ++ take need buffer in
    let rest = drop need buffer in
    if ltb (length buffer) need
    then (nothing, save_uncomplete q fd (body size (filled ++ buffer)))
    else if length buffer == need
    then (whole fd filled_up, q)
    else (more, push_more (length rest) (push_data q fd filled_up) fd rest)

-- The part of `filter_data_` for a piece that starts a package.
unfoldable pub start : Queue → ℕ → List ℕ → Reply × Queue
start q fd [] = (nothing, q)
start q fd (b ∷ []) = (nothing, save_uncomplete q fd (header b))
start q fd (b₀ ∷ b₁ ∷ rest) =
    let pack_size = read_size b₀ b₁ in
    let left = drop pack_size rest in
    if ltb (length rest) pack_size
    then (nothing, save_uncomplete q fd (body pack_size rest))
    else if length rest == pack_size
    then (whole fd rest, q)
    else (more, push_more (length left) (push_data q fd (take pack_size rest)) fd left)

-- The header is filled by the first byte of the piece.
unfoldable pub resume : Queue → ℕ → Progress → List ℕ → Reply × Queue
resume q fd (header b₀) [] = (nothing, q)
resume q fd (header b₀) (b₁ ∷ rest) = fill q fd (read_size b₀ b₁) [] rest
resume q fd (body size filled) buffer = fill q fd size filled buffer

-- `filter_data_`. The socket server hands on pieces of at least one byte.
unfoldable pub filter_data : Queue → ℕ → List ℕ → Reply × Queue
filter_data q fd buffer =
    let (found, q') = find_uncomplete q fd in
    elim found [ none ↦ start q' fd buffer | some uc ↦ resume q' fd uc.progress buffer ]

-- `close_uncomplete`
unfoldable pub close_uncomplete : Queue → ℕ → Queue
close_uncomplete q fd = (find_uncomplete q fd).1

-- `lclear`: what is in the queue is freed.
unfoldable pub clear : Queue → Queue
clear q = record q { hash = λ h. []; queue = [] }

-- `lpop`
unfoldable pub pop : Queue → Option Netpack × Queue
pop q = elim q.queue [ [] ↦ (none, q) | p ∷ ps ↦ (some p, record q { queue = ps }) ]

-- `lpack`: `none` is the error for a package of 2 ^ 16 bytes or more.
unfoldable pub pack : List ℕ → Option (List ℕ)
pack ptr =
    let len = length ptr in
    if ltb len 0x10000 then some (len / 256 % 256 ∷ len % 256 ∷ ptr) else none
