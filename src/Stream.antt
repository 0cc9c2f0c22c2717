-- ===== src/Stream.antt =====
-- sylar/stream.cpp: the loops that read and write a fixed size into and from a buffer. What the virtual read
-- and write return, one call after the other, is a list; a loop that goes on behind its end is `stuck`.
pub mod Reading
mod Examples
use sylar.Common.{
  ℕ, zero, suc, ◌+◌, ◌-◌, ◌%◌, ◌^◌, List, [], ◌∷◌, ◌++◌, length, take, leb, if◌then◌else◌, sub_u64,
}
use sylar.Common.Memory.{overwrite}
use sylar.Common.Outcome.{Outcome, ok, fault, stuck, ◌>>=◌}

-- A call of `read`: the bytes that it stored, none when the stream is closed, or -1.
pub data Reply : Type 0 where
  received : List ℕ → Reply
  failed : Reply

-- The loop of readFixSize. `len` is a size_t, so -1 is 2^64 - 1 and never below 0.
unfoldable pub read_fix_loop :
    List Reply → (offset left : ℕ) → List ℕ → Outcome (List ℕ × List Reply)
read_fix_loop replies offset zero buffer = ok (buffer, replies)
read_fix_loop [] offset (suc left) buffer = stuck
read_fix_loop (received bytes ∷ replies) offset (suc left) buffer =
    let later =
      read_fix_loop replies ((offset + length bytes) % 2 ^ 64) (sub_u64 (suc left) (length bytes))
        (overwrite buffer offset bytes) in
    if leb (offset + length bytes) (length buffer) then later else fault
read_fix_loop (failed ∷ replies) offset (suc left) buffer =
    read_fix_loop replies ((offset + (2 ^ 64 - 1)) % 2 ^ 64) (sub_u64 (suc left) (2 ^ 64 - 1))
      buffer

-- readFixSize(buffer, length) on a buffer of that length: what it holds at the end, and the replies not used.
unfoldable pub read_fix_size : List Reply → List ℕ → Outcome (List ℕ × List Reply)
unfolding read_fix_loop
read_fix_size replies buffer = read_fix_loop replies 0 (length buffer) buffer

-- A call of `write`: how many bytes it took, or -1.
pub data Sent : Type 0 where
  sent : ℕ → Sent
  not_sent : Sent

-- The loop of writeFixSize, with what went out; each call gets the buffer from its start.
unfoldable pub write_fix_loop :
    List Sent → (left : ℕ) → List ℕ → List ℕ → Outcome (List ℕ × List Sent)
write_fix_loop replies zero buffer out = ok (out, replies)
write_fix_loop [] (suc left) buffer out = stuck
write_fix_loop (sent n ∷ replies) (suc left) buffer out =
    write_fix_loop replies (sub_u64 (suc left) n) buffer (out ++ take n buffer)
write_fix_loop (not_sent ∷ replies) (suc left) buffer out =
    write_fix_loop replies (sub_u64 (suc left) (2 ^ 64 - 1)) buffer out

unfoldable pub write_fix_size : List Sent → List ℕ → Outcome (List ℕ × List Sent)
unfolding write_fix_loop
write_fix_size replies buffer = write_fix_loop replies (length buffer) buffer []
