-- ===== src/Net/RecvBuffer.antt =====
-- ServerCore/RecvBuffer.h and RecvBuffer.cpp: the receive buffer of a session.
pub mod Laws
use mmo_server_cpp.Base.{
  ℕ, ◌+◌, ◌-◌, ◌*◌, ◌≤◌, ◌≡◌, ◌++◌, List, Option, none, some, Bool, true, false, ltb, leb, ◌==◌,
  ◌||◌, if◌then◌else◌, length, take, drop, replicate,
}

-- Offsets are never negative, so an `int32` is a natural number; `RecvBuffer.Laws` bounds it.
pub record RecvBuffer : Type 0 where
  pub buffer_size : ℕ
  pub capacity : ℕ
  pub read_at : ℕ
  pub write_at : ℕ
  pub buffer : List ℕ

abbrev pub buffer_count : ℕ
buffer_count = 10

unfoldable pub make : ℕ → RecvBuffer
make size = record {
  buffer_size = size;
  capacity = size * buffer_count;
  read_at = 0;
  write_at = 0;
  buffer = replicate (size * buffer_count) 0;
}

abbrev pub data_size_to_read : RecvBuffer → ℕ
data_size_to_read r = r.write_at - r.read_at

abbrev pub free_size : RecvBuffer → ℕ
free_size r = r.capacity - r.write_at

-- `memcpy(&buf[0], &buf[src], n)`: undefined, here `none`, where the two regions overlap.
pub memcpy_to_front : List ℕ → ℕ → ℕ → Option (List ℕ)
memcpy_to_front buf src n =
    if n == 0 || leb n src then some (take n (drop src buf) ++ drop n buf) else none

compact : RecvBuffer → Option (List ℕ) → Option RecvBuffer
compact r none = none
compact r (some buf) =
    some (record r { read_at = 0; write_at = r.write_at - r.read_at; buffer = buf })

pub clear : RecvBuffer → Option RecvBuffer
unfolding compact
clear r =
    if data_size_to_read r == 0
    then some (record r { read_at = 0; write_at = 0 })
    else if ltb (free_size r) r.buffer_size
    then compact r (memcpy_to_front r.buffer r.read_at (data_size_to_read r))
    else some r

pub on_read : RecvBuffer → ℕ → RecvBuffer × Bool
on_read r n =
    if ltb (data_size_to_read r) n then (r, false) else (record r { read_at = r.read_at + n }, true)

pub on_write : RecvBuffer → ℕ → RecvBuffer × Bool
on_write r n =
    if ltb (free_size r) n then (r, false) else (record r { write_at = r.write_at + n }, true)

-- What the kernel does on a completed receive, before `OnWrite`: the bytes stand at `WriteAt()`.
pub fill : RecvBuffer → List ℕ → RecvBuffer
fill r bytes = record r {
  buffer = take r.write_at r.buffer ++ (bytes ++ drop (r.write_at + length bytes) r.buffer);
}

-- The bytes that are received and not yet read.
abbrev pub pending : RecvBuffer → List ℕ
pending r = take (r.write_at - r.read_at) (drop r.read_at r.buffer)
