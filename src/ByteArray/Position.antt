-- ===== src/ByteArray/Position.antt =====
-- Construction, setPosition and clear.
use sylar.Common.{
  ℕ, zero, suc, ◌+◌, ◌-◌, ◌*◌, ◌≤◌, ◌<◌, ◌≡◌, refl, sym, ap, ◌∙◌, arith, inl, inr, List, [], ◌∷◌,
  true, false, length, ltb, ◌==◌, take, take_all, if◌then◌else◌, Bool-cases, max,
}
use sylar.Common.Outcome.{Outcome, ok, thrown}
use sylar.ByteArray.{ByteArray, Node, new_byte_array, seek, set_position, clear}
use sylar.ByteArray.Seated.{Blocks, IsValid, content, flat}
use sylar.Common.Memory.{slice-append_left}
use mathlib.Core.List.{append-nil}
use native.Mathlib.Decide.{dec_le}
use sylar.ByteArray.Growth.{length-replicate_cells}

-- The block that holds position v, counted from the first of the chain.
abbrev Seeks : ℕ → ℕ → ℕ → Outcome ℕ → Type 0
Seeks base v from r = (c : ℕ) × (r ≡ ok (from + c)) × (c * base ≤ v) × (v < c * base + base)

seek_further :
    (v from : ℕ) (n : Node) (ns : List Node)
    → n.size < v
    → seek (n ∷ ns) v from ≡ seek ns (v - n.size) (suc from)
unfolding seek
seek_further v from n ns h = let e : ltb n.size v ≡ true = ground arith in rw e

seek_here :
    (v from : ℕ) (n : Node) (ns : List Node)
    → v ≤ n.size
    → seek (n ∷ ns) v from ≡ ok (if v == n.size then suc from else from)
unfolding seek
seek_here v from n ns h = let e : ltb n.size v ≡ false = ground arith in rw e

seek-Seeks :
    (base : ℕ) (ns : List Node) (v from : ℕ)
    → Blocks base ns
    → 0 < base
    → 0 < length ns
    → v ≤ length ns * base
    → Seeks base v from (seek ns v from)
seek-Seeks base [] v from h pos filled le = absurd (omega arith)
seek-Seeks base (n ∷ ns) v from h pos filled le = elim (dec_le v n.size) [
  | yes here ↦ rw (seek_here v from n ns here) (elim (Bool-cases (v == n.size)) [
    | inl e ↦ (1, rw e (ap ok (omega arith)), ground (arith, h), ground (arith, h))
    | inr e ↦ (0, rw e (ap ok (omega arith)), ground (arith, h), ground (arith, h))
  ])
  | no further ↦
      let (c, e, lo, hi) =
        seek-Seeks base ns (v - n.size) (suc from) h.2 pos (more (length ns) (omega (arith, h.1)))
          (omega (arith, h.1)) in
      rw (seek_further v from n ns (omega arith))
        (suc c, e ∙ ap ok (omega arith), omega (arith, h.1), omega (arith, h.1))
]
  where
    more : (k : ℕ) → base < v × (v ≤ suc k * base) → 0 < k
    more zero p = absurd (omega arith)
    more (suc k) p = omega arith

-- A fresh array of a positive base size is valid.
pub new_byte_array-IsValid : (base : ℕ) → 0 < base → IsValid (new_byte_array base)
unfolding new_byte_array
new_byte_array-IsValid base h = record {
  seated = record {
    base_pos = h;
    blocks = (length-replicate_cells base, refl, tt);
    some_block = omega arith;
    all_blocks = omega arith;
    cur_from = omega arith;
    cur_until = omega arith;
  };
  position_le = omega arith;
  size_le = omega arith;
}

-- setPosition within the capacity succeeds: the position is v, the size covers it, m_cur is the block
-- of v, everything else is as before, and the array stays valid.
pub set_position_lem :
    (v : ℕ) (s : ByteArray)
    → IsValid s
    → v ≤ s.capacity
    → (c : ℕ) × (set_position v s ≡ ok (record s { position = v; size = max s.size v; cur = c }))
      × IsValid (record s { position = v; size = max s.size v; cur = c })
unfolding set_position
set_position_lem v s valid h =
    let (c, e, lo, hi) =
      seek-Seeks s.base_size s.nodes v 0 valid.blocks valid.base_pos valid.some_block
        (omega (arith, valid.all_blocks)) in
    let start : 0 + c ≡ c = omega arith in
    let inside : ltb s.capacity v ≡ false = ground arith in
    let covers : (if ltb s.size v then v else s.size) ≡ max s.size v = ground arith in
    (
      c,
      rw inside (rw (rw start at e) (rw covers)),
      record {
        seated = record {
          base_pos = valid.base_pos;
          blocks = valid.blocks;
          some_block = valid.some_block;
          all_blocks = valid.all_blocks;
          cur_from = lo;
          cur_until = hi;
        };
        position_le = omega arith;
        size_le = omega (arith, valid.size_le);
      },
    )

-- Beyond the capacity it throws.
pub set_position_beyond : (v : ℕ) (s : ByteArray) → s.capacity < v → set_position v s ≡ thrown
unfolding set_position
set_position_beyond v s h = ground arith

first_block :
    (base : ℕ) (ns : List Node)
    → Blocks base ns
    → 0 < length ns
    → Blocks base (take 1 ns) × (length (take 1 ns) ≡ 1) × (flat (take 1 ns) ≡ take base (flat ns))
first_block base [] h filled = absurd (omega arith)
first_block base (n ∷ ns) h filled = (
  (h.0, h.1, tt),
  refl,
  append-nil n.cells
      ∙ sym (
          slice-append_left n.cells (flat ns) 0 base (omega (arith, h.0))
          ∙ take_all base n.cells (omega (arith, h.0))),
)

-- `clear` leaves a valid empty array of one block, whose bytes are still those of the old first block.
clear-IsValid :
    (s : ByteArray)
    → IsValid s
    → IsValid (clear s) × ((clear s).size ≡ 0) × (content (clear s) ≡ take s.base_size (content s))
unfolding clear
clear-IsValid s v =
    let (blocks, one, cells) = first_block s.base_size s.nodes v.blocks v.some_block in
    (
      record {
        seated = record {
          base_pos = v.base_pos;
          blocks = blocks;
          some_block = omega (arith, one);
          all_blocks = omega (arith, ap (λ (k : ℕ). k * s.base_size) one);
          cur_from = omega arith;
          cur_until = omega (arith, v.base_pos);
        };
        position_le = omega arith;
        size_le = omega arith;
      },
      refl,
      cells,
    )
