-- ===== src/Memory/SendBuffer.antt =====
-- ServerCore/SendBuffer.h and SendBuffer.cpp: the chunk of one thread and the stock of chunks. A
-- chunk is a number; it is destroyed into the stock when neither the thread nor a send buffer holds
-- it any more.
pub mod Laws
pub mod Use
pub mod Acquire
use mmo_server_cpp.Base.{
  ℕ, zero, suc, ◌+◌, ◌-◌, List, [], ◌∷◌, Option, none, some, Bool, true, false, ltb, ◌==◌, ◌||◌,
  if◌then◌else◌,
}

-- `CHUNK_SIZE`
abbrev pub chunk_size : ℕ
chunk_size = 0x3000

-- A `SendBuffer`: its chunk, where its bytes start there, and how many they are.
pub record SendBuffer : Type 0 where
  pub owner_chunk : ℕ
  pub start : ℕ
  pub alloc_size : ℕ

pub record Chunk : Type 0 where
  pub id : ℕ
  pub used_size : ℕ

-- `current` is `tls_send_buffer_chunk`, `stock` is `_send_buffer_chunks` with its back first,
-- `live` are the send buffers that somebody holds, `fresh` the next chunk that is allocated.
pub record Manager : Type 0 where
  pub current : Option Chunk
  pub stock : List ℕ
  pub live : List SendBuffer
  pub fresh : ℕ

unfoldable pub initial : Manager
initial = record { current = none; stock = []; live = []; fresh = 0 }

abbrev pub is_held : ℕ → List SendBuffer → Bool
is_held chunk [] = false
is_held chunk (b ∷ bs) = (b.owner_chunk == chunk) || is_held chunk bs

-- `Pop`, and `Reset` on what it returns: the new current chunk is empty.
install : Manager → List ℕ → Manager
install m [] = record m {
  current = some (record { id = m.fresh; used_size = 0 });
  fresh = m.fresh + 1;
}
install m (chunk ∷ chunks) = record m {
  current = some (record { id = chunk; used_size = 0 });
  stock = chunks;
}

-- The thread lets go of a chunk; without a buffer in it, its deleter calls `Push`.
pub retire : Manager → ℕ → Manager
retire m chunk = if is_held chunk m.live then m else record m { stock = chunk ∷ m.stock }

retire_old : Manager → Option Chunk → Manager
unfolding retire
retire_old m none = m
retire_old m (some c) = retire m c.id

-- `tls_send_buffer_chunk = Pop(); tls_send_buffer_chunk->Reset();`
pub replace : Manager → Manager
unfolding install retire_old
replace m = retire_old (install m m.stock) m.current

abbrev pub free_size : Chunk → ℕ
free_size c = chunk_size - c.used_size

-- What `Acquire` comes to: a buffer, `nullptr`, or a failed assertion.
pub data Outcome : Type 0 where
  acquired : SendBuffer → Outcome
  refused : Outcome
  crash : Outcome

-- `SendBufferChunk::Acquire`, with the `OnWrite` of the new buffer.
acquire_in : Manager → Option Chunk → ℕ → Manager × Outcome
acquire_in m none size = (m, crash)
acquire_in m (some c) size =
    let b : SendBuffer = record { owner_chunk = c.id; start = c.used_size; alloc_size = size } in
    if ltb chunk_size size then (m, crash) else if ltb (free_size c) size then (m, refused) else (
      record m { current = some (record c { used_size = c.used_size + size }); live = b ∷ m.live },
      acquired b,
    )

-- The two tests of `SendBufferManager::Acquire`.
with_chunk : Manager → Option Chunk → Manager
unfolding replace
with_chunk m none = replace m
with_chunk m (some c) = m

with_room : Manager → Option Chunk → ℕ → Manager
unfolding replace
with_room m none size = m
with_room m (some c) size = if ltb (free_size c) size then replace m else m

pub acquire : Manager → ℕ → Manager × Outcome
unfolding acquire_in with_chunk with_room
acquire m size =
    let m1 = with_chunk m m.current in
    let m2 = with_room m1 m1.current size in acquire_in m2 m2.current size

abbrev is_current : Option Chunk → ℕ → Bool
is_current none chunk = false
is_current (some c) chunk = c.id == chunk

abbrev pub nth : ℕ → List SendBuffer → Option SendBuffer
nth i [] = none
nth zero (b ∷ bs) = some b
nth (suc i) (b ∷ bs) = nth i bs

abbrev pub without_nth : ℕ → List SendBuffer → List SendBuffer
without_nth i [] = []
without_nth zero (b ∷ bs) = bs
without_nth (suc i) (b ∷ bs) = b ∷ without_nth i bs

-- The last holder of the `i`th send buffer lets go of it, and perhaps of its chunk.
let_go : Manager → Option SendBuffer → Manager
unfolding retire
let_go m none = m
let_go m (some b) = if is_current m.current b.owner_chunk then m else retire m b.owner_chunk

pub release : Manager → ℕ → Manager
unfolding let_go
release m i = let_go (record m { live = without_nth i m.live }) (nth i m.live)
