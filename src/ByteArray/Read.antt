-- ===== src/ByteArray/Read.antt =====
-- The read loop refines one read of a range of the whole content.
use sylar.Common.{
  ℕ, zero, suc, ◌+◌, ◌-◌, ◌*◌, ◌%◌, ◌≤◌, ◌<◌, ◌≡◌, refl, sym, ap, ◌∙◌, arith, inl, inr, List, [],
  ◌∷◌, ◌++◌, none, some, true, false, length, get_elem?, ltb, leb, ◌==◌, if◌then◌else◌, Bool-cases,
  sub_u64,
}
use sylar.Common.Memory.{slice, slice-slice}
use sylar.Common.Outcome.{Outcome, ok, thrown, fault}
use sylar.ByteArray.{ByteArray, Node, Cell, load, read_last, read_loop, read, get_read_size}
use sylar.ByteArray.Seated.{IsSeated, IsValid, content, length-flat, node_at, slice-flat}
use sylar.ByteArray.Write.{offset_lem}
use sylar.ByteArray.Written.{block_exists}
use sylar.ByteArray.Growth.{block_unique}
use native.Mathlib.Decide.{dec_le}

-- The array after a read: only the position and m_cur move.
abbrev pub moved_to : ByteArray → ℕ → ℕ → ByteArray
moved_to s p c = record s { position = p; cur = c }

abbrev Reads : ℕ → ByteArray → Outcome (List Cell × ByteArray) → Type 0
Reads n s r =
    (c : ℕ) × (r ≡ ok (slice (content s) s.position n, moved_to s (s.position + n) c))
    × IsSeated (moved_to s (s.position + n) c)

moved_to-IsSeated :
    (s : ByteArray) (p c : ℕ)
    → IsSeated s
    → c * s.base_size ≤ p
    → p < c * s.base_size + s.base_size
    → IsSeated (moved_to s p c)
moved_to-IsSeated s p c v lo hi = record {
  base_pos = v.base_pos;
  blocks = v.blocks;
  some_block = v.some_block;
  all_blocks = v.all_blocks;
  cur_from = lo;
  cur_until = hi;
}

-- A memcpy out of the current block.
module _ (s : ByteArray) (v : IsSeated s) (npos : ℕ)
    (starts : s.position ≡ s.cur * s.base_size + npos) (n : ℕ) (room : npos + n ≤ s.base_size)
    (inside : s.position < s.capacity) where
  here :
      (m : Node) × (get_elem? s.nodes s.cur ≡ some m)
      × (length m.cells ≡ s.base_size)
      × (m.size ≡ s.base_size)
  here = node_at s.base_size s.nodes s.cur v.blocks (
      block_exists s.cur (length s.nodes) s.base_size s.position v.cur_from
        (omega (arith, v.all_blocks)))

  loaded : load npos n s ≡ ok (slice (content s) s.position n)
  unfolding load
  loaded =
      let fits : leb (npos + n) here.0.size ≡ true = ground (arith, here) in
      rw here.1 (
        rw fits (
          ap ok (
            sym (slice-flat s.base_size s.nodes s.cur npos n here.1 v.blocks room)
            ∙ ap (λ (p : ℕ). slice (content s) p n) (sym starts))))

  after_last : ℕ
  after_last = if s.base_size == npos + n then suc s.cur else s.cur

  read_last-Reads : Reads n s (read_last npos n s)
  unfolding read_last after_last
  read_last-Reads = (
    after_last,
    rw loaded (rw here.1 (rw here.3)),
    elim (Bool-cases (s.base_size == npos + n)) [
      | inl e ↦ rw e (moved_to-IsSeated s _ (suc s.cur) v (ground arith) (ground arith))
      | inr e ↦ rw e (moved_to-IsSeated s _ s.cur v (ground arith) (ground arith))
    ],
  )

loop_last :
    (fuel npos room n : ℕ) (s : ByteArray)
    → suc n ≤ room
    → read_loop (suc fuel) npos room (suc n) s ≡ read_last npos (suc n) s
unfolding read_loop
loop_last fuel npos room n s h = let e : leb (suc n) room ≡ true = ground arith in rw (e, read_loop)

loop_block :
    (fuel npos room n : ℕ) (s u : ByteArray) (node : Node) (front rest : List Cell)
    → room < suc n
    → load npos room s ≡ ok front
    → get_elem? s.nodes (suc s.cur) ≡ some node
    → read_loop fuel 0 node.size (suc n - room) (moved_to s (s.position + room) (suc s.cur))
      ≡ ok (rest, u)
    → read_loop (suc fuel) npos room (suc n) s ≡ ok (front ++ rest, u)
unfolding read_loop
loop_block fuel npos room n s u node front rest h p q r =
    let e : leb (suc n) room ≡ false = ground arith in rw (e, read_loop) (rw p (rw q (rw r)))

-- The loop reads the bytes from the position on and leaves the array seated, if the capacity has them.
read_loop-Reads :
    (fuel npos room n : ℕ) (s : ByteArray) (v : IsSeated s)
    → s.position ≡ s.cur * s.base_size + npos
    → npos < s.base_size
    → room ≡ s.base_size - npos
    → n ≤ fuel
    → s.position + n ≤ s.capacity
    → Reads n s (read_loop fuel npos room n s)
read_loop-Reads fuel npos room zero s v starts below e enough fits =
    let same : s.position + 0 ≡ s.position = omega arith in
    (s.cur, rw same (unfold read_loop in refl), rw same v)
read_loop-Reads zero npos room (suc n) s v starts below e enough fits = absurd (omega arith)
read_loop-Reads (suc fuel) npos room (suc n) s v starts below e enough fits =
    rw e (elim (dec_le (suc n) (s.base_size - npos)) [
      | yes last ↦
          rw (loop_last fuel npos (s.base_size - npos) n s last)
            (read_last-Reads s v npos starts (suc n) (omega arith) (omega arith))
      | no full ↦ block_round (omega arith) (
          read_loop-Reads fuel 0 s.base_size (suc n - (s.base_size - npos))
            (moved_to s (s.position + (s.base_size - npos)) (suc s.cur))
            (moved_to-IsSeated s _ (suc s.cur) v (omega arith) (omega arith)) (omega arith)
            v.base_pos (omega arith) (omega arith) (omega arith))
    ])
  where
    block_round :
        s.base_size - npos < suc n
        → Reads
            (suc n - (s.base_size - npos))
            (moved_to s (s.position + (s.base_size - npos)) (suc s.cur))
            (read_loop fuel 0 s.base_size
              (suc n - (s.base_size - npos))
              (moved_to s (s.position + (s.base_size - npos)) (suc s.cur)))
        → Reads (suc n) s (read_loop (suc fuel) npos (s.base_size - npos) (suc n) s)
    block_round full (c, done, seated) =
        let k = s.base_size - npos in
        let p : s.position + k + (suc n - k) ≡ s.position + suc n = omega arith in
        let joined =
          slice-slice (content s) s.position (s.position + k) k (suc n - k) refl
            (omega (arith, v.all_blocks, length-flat s.base_size s.nodes v.blocks)) in
        let total : k + (suc n - k) ≡ suc n = omega arith in
        let (node, found, _, size) = node_at s.base_size s.nodes (suc s.cur) v.blocks (
          block_exists (suc s.cur) (length s.nodes) s.base_size (s.position + k) (omega arith)
            (omega (arith, v.all_blocks))) in
        (
          c,
          loop_block fuel npos k n s (moved_to s (s.position + k + (suc n - k)) c) node
                (slice (content s) s.position k) (slice (content s) (s.position + k) (suc n - k))
                full (loaded s v npos starts k (omega arith) (omega arith)) found (rw size done)
              ∙ rw (joined, total, p),
          rw p at seated,
        )

read_steps :
    (n : ℕ) (s : ByteArray) (m : Node)
    → s.position ≤ s.size
    → n ≤ s.size - s.position
    → 0 < s.base_size
    → get_elem? s.nodes s.cur ≡ some m
    → m.size ≡ s.base_size
    → s.position % s.base_size < s.base_size
    → read n s ≡ read_loop n (s.position % s.base_size) (s.base_size - s.position % s.base_size) n s
unfolding read
read_steps n s m order enough base found size below =
    let enough' : ltb (get_read_size s) n ≡ false = ground arith in
    let not_zero : (s.base_size == 0) ≡ false = ground arith in
    let room : sub_u64 m.size (s.position % s.base_size) ≡ s.base_size - s.position % s.base_size =
      ground arith in
    rw enough' (rw not_zero (rw found (rw room)))

-- `read` of n bytes, at most what is left and at least one, returns the bytes at the position,
-- moves the position behind them, changes nothing else, and keeps the array valid.
pub read-slice :
    (n : ℕ) (s : ByteArray)
    → IsValid s
    → 0 < n
    → s.position + n ≤ s.size
    → (c : ℕ) × (read n s ≡ ok (slice (content s) s.position n, moved_to s (s.position + n) c))
      × IsValid (moved_to s (s.position + n) c)
read-slice n s v pos fits =
    let exists =
      block_exists s.cur (length s.nodes) s.base_size s.position v.cur_from
        (omega (arith, v.all_blocks)) in
    let (m, found, _, size) = node_at s.base_size s.nodes s.cur v.blocks exists in
    let (at, below) = offset_lem s.cur s.base_size s.position v.cur_from v.cur_until in
    let (c, done, seated) =
      read_loop-Reads n _ _ n s v.seated at below refl (omega arith) (omega arith) in
    (
      c,
      read_steps n s m v.position_le (omega arith) v.base_pos found size below ∙ done,
      record { seated = seated; position_le = omega arith; size_le = v.size_le },
    )

-- A read of more than what is left throws, whatever the state of the blocks.
pub read_too_much :
    (n : ℕ) (s : ByteArray) → IsValid s → s.size < s.position + n → read n s ≡ thrown
unfolding read
read_too_much n s v h = ground arith

-- A read of no bytes succeeds while the position is inside a block.
pub read_nothing : (s : ByteArray) → IsValid s → s.position < s.capacity → read 0 s ≡ ok ([], s)
unfolding read read_loop
read_nothing s v h =
    let exists =
      block_exists s.cur (length s.nodes) s.base_size s.position v.cur_from
        (omega (arith, v.all_blocks)) in
    let found = (node_at s.base_size s.nodes s.cur v.blocks exists).1 in
    ground (arith, found, v.base_pos)

past_end : (ns : List Node) (i : ℕ) → length ns ≤ i → get_elem? ns i ≡ none
past_end [] i h = refl
past_end (n ∷ ns) zero h = absurd (omega arith)
past_end (n ∷ ns) (suc i) h = past_end ns i (omega arith)

-- Once the position has reached the end of the capacity, m_cur is null, and even a read of no bytes
-- dereferences it.
pub read_nothing_faults : (s : ByteArray) → IsValid s → s.position ≡ s.capacity → read 0 s ≡ fault
unfolding read
read_nothing_faults s v h =
    let last : s.cur ≡ length s.nodes =
      block_unique s.cur (length s.nodes) s.position s.base_size v.cur_from v.cur_until
        (omega (arith, v.all_blocks)) (omega (arith, v.all_blocks, v.base_pos)) in
    let gone = past_end s.nodes s.cur (omega (arith, last)) in ground (arith, gone, v.base_pos)
