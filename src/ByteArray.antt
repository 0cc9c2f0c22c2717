-- ===== src/ByteArray.antt =====
-- sylar/bytearray.h and bytearray.cpp: the chain of memory blocks, its growth, and the loops that
-- copy bytes into it and out of it. The typed accessors are in the child Codec.
pub mod Seated
pub mod Growth
pub mod Written
pub mod WriteLoop
pub mod Write
pub mod Read
pub mod Position
pub mod Codec
mod Examples
use sylar.Common.{
  ℕ, zero, suc, ◌+◌, ◌-◌, ◌*◌, ◌/◌, ◌%◌, Bool, true, false, not, ◌||◌, Option, none, some, List, [],
  ◌∷◌, ◌++◌, map, length, get_elem?, set, take, drop, replicate, ltb, leb, ◌==◌, if◌then◌else◌,
  sub_u64,
}
use sylar.Common.Memory.{overwrite, slice}
use sylar.Common.Outcome.{Outcome, ok, thrown, fault, stuck, ◌>>=◌, deref}
use sylar.Endian.{ByteOrder, little_endian, big_endian}

-- A byte of a block; `none` until something is written there.
abbrev pub Cell : Type 0
Cell = Option ℕ

-- `next` is the block's successor in the list of the array's blocks.
pub record Node : Type 0 where
  pub cells : List Cell
  pub size : ℕ

-- `cur` is the position of m_cur in the chain; the chain's length stands for a null m_cur.
pub record ByteArray : Type 0 where
  pub base_size : ℕ
  pub position : ℕ
  pub capacity : ℕ
  pub size : ℕ
  pub endian : ByteOrder
  pub nodes : List Node
  pub cur : ℕ

-- `new Node(s)`: the block's bytes are indeterminate.
unfoldable pub new_node : ℕ → Node
new_node s = record { cells = replicate s none; size = s }

-- The constructor.
unfoldable pub new_byte_array : ℕ → ByteArray
unfolding new_node
new_byte_array base = record {
  base_size = base;
  position = 0;
  capacity = base;
  size = 0;
  endian = big_endian;
  nodes = new_node base ∷ [];
  cur = 0;
}

unfoldable pub is_little_endian : ByteArray → Bool
is_little_endian s = elim s.endian [ little_endian ↦ true | big_endian ↦ false ]

unfoldable pub set_is_little_endian : Bool → ByteArray → ByteArray
set_is_little_endian val s = record s { endian = if val then little_endian else big_endian }

abbrev pub get_read_size : ByteArray → ℕ
get_read_size s = sub_u64 s.size s.position

abbrev pub get_capacity : ByteArray → ℕ
get_capacity s = sub_u64 s.capacity s.position

-- ceil(1.0 * n / base), exact for n up to 2 ^ 53.
abbrev pub ceil_div : ℕ → ℕ → ℕ
ceil_div n base = (n + base - 1) / base

-- The loop of addCapacity over `count` new blocks.
unfoldable pub append_nodes : ℕ → ByteArray → ByteArray
unfolding new_node
append_nodes zero s = s
append_nodes (suc count) s = append_nodes count (record s {
  nodes = s.nodes ++ (new_node s.base_size ∷ []);
  capacity = s.capacity + s.base_size;
})

-- With a base size of 0 the quotient is infinite, and its conversion to size_t undefined.
unfoldable pub add_capacity : ℕ → ByteArray → Outcome ByteArray
unfolding append_nodes
add_capacity n s =
    if n == 0 || leb n (get_capacity s)
    then ok s
    else (if s.base_size == 0
        then fault
        else ok (
            let t = append_nodes (ceil_div (n - get_capacity s) s.base_size) s in
            record t { cur = if get_capacity s == 0 then length s.nodes else t.cur }))

-- `v % m_baseSize`, undefined if that is 0.
abbrev pub block_offset : ByteArray → ℕ → Outcome ℕ
block_offset s v = if s.base_size == 0 then fault else ok (v % s.base_size)

abbrev pub cur_node : ByteArray → Outcome Node
cur_node s = deref (get_elem? s.nodes s.cur)

-- memcpy(m_cur->ptr + npos, bytes, ...), which must stay inside the block.
unfoldable pub store : ℕ → List ℕ → ByteArray → Outcome ByteArray
store npos bytes s = do
  node ← cur_node s
  if leb (npos + length bytes) node.size
      then ok (record s {
        nodes =
            set s.nodes s.cur (record node { cells = overwrite node.cells npos (map some bytes) });
      })
      else fault

-- The branch of `write` for what fits the current block.
unfoldable pub write_last : ℕ → List ℕ → ByteArray → Outcome ByteArray
write_last npos bytes s = do
  t ← store npos bytes s
  node ← cur_node t
  ok (record t {
    cur = if node.size == npos + length bytes then suc t.cur else t.cur;
    position = t.position + length bytes;
  })

-- The other branch, which fills the block and moves on.
unfoldable pub write_block : ℕ → ℕ → List ℕ → ByteArray → Outcome ByteArray
write_block npos ncap bytes s = do
  t ← store npos (take ncap bytes) s
  ok (record t { position = t.position + ncap; cur = suc t.cur })

-- The loop of `write`; `bytes` are those from `bpos` on.
unfoldable pub write_loop : ℕ → ℕ → ℕ → List ℕ → ByteArray → Outcome ByteArray
unfolding write_last write_block
write_loop fuel npos ncap [] s = ok s
write_loop zero npos ncap (b ∷ bs) s = stuck
write_loop (suc fuel) npos ncap (b ∷ bs) s = elim (leb (length (b ∷ bs)) ncap) [
  | true ↦ write_last npos (b ∷ bs) s
  | false ↦ do
    t ← write_block npos ncap (b ∷ bs) s
    node ← cur_node t
    write_loop fuel 0 node.size (drop ncap (b ∷ bs)) t
]

unfoldable pub write : List ℕ → ByteArray → Outcome ByteArray
unfolding write_loop add_capacity store
write [] s = ok s
write (b ∷ bs) s = do
  t ← add_capacity (length (b ∷ bs)) s
  npos ← block_offset t t.position
  node ← cur_node t
  u ← write_loop (length (b ∷ bs)) npos (sub_u64 node.size npos) (b ∷ bs) t
  ok (record u { size = if ltb u.size u.position then u.position else u.size })

-- memcpy from m_cur->ptr + npos.
unfoldable pub load : ℕ → ℕ → ByteArray → Outcome (List Cell)
load npos n s = do
  node ← cur_node s
  if leb (npos + n) node.size then ok (slice node.cells npos n) else fault

-- The two branches of `read`, and its loop. What has been read comes first in the result.
unfoldable pub read_last : ℕ → ℕ → ByteArray → Outcome (List Cell × ByteArray)
read_last npos n s = do
  out ← load npos n s
  node ← cur_node s
  ok (
    out,
    record s {
      cur = if node.size == npos + n then suc s.cur else s.cur;
      position = s.position + n;
    },
  )

unfoldable pub read_loop : ℕ → ℕ → ℕ → ℕ → ByteArray → Outcome (List Cell × ByteArray)
unfolding read_last
read_loop fuel npos ncap zero s = ok ([], s)
read_loop zero npos ncap (suc n) s = stuck
read_loop (suc fuel) npos ncap (suc n) s = elim (leb (suc n) ncap) [
  | true ↦ read_last npos (suc n) s
  | false ↦ do
    out ← load npos ncap s
    let t = record s { position = s.position + ncap; cur = suc s.cur }
    node ← cur_node t
    (rest, u) ← read_loop fuel 0 node.size (suc n - ncap) t
    ok (out ++ rest, u)
]

-- `read(buf, size)`.
unfoldable pub read : ℕ → ByteArray → Outcome (List Cell × ByteArray)
unfolding read_loop load
read n s = if ltb (get_read_size s) n then thrown else do
  npos ← block_offset s s.position
  node ← cur_node s
  read_loop n npos (sub_u64 node.size npos) n s

-- The loop of setPosition, over the blocks from `cur` on.
unfoldable pub seek : List Node → ℕ → ℕ → Outcome ℕ
seek [] v cur = fault
seek (node ∷ rest) v cur =
    let later = seek rest (v - node.size) (suc cur) in
    if ltb node.size v then later else ok (if v == node.size then suc cur else cur)

unfoldable pub set_position : ℕ → ByteArray → Outcome ByteArray
unfolding seek
set_position v s = if ltb s.capacity v then thrown else do
  cur ← seek s.nodes v 0
  ok (record s { position = v; size = if ltb s.size v then v else s.size; cur = cur })

unfoldable pub clear : ByteArray → ByteArray
clear s = record s {
  position = 0;
  size = 0;
  capacity = s.base_size;
  nodes = take 1 s.nodes;
  cur = 0;
}
