-- ===== src/ByteArray/Seated.antt =====
-- The chain of blocks seen as one list of bytes, and what holds of a byte array between calls.
use sylar.Common.{
  ℕ, zero, suc, ◌+◌, ◌*◌, ◌≤◌, ◌<◌, ◌≡◌, refl, sym, ap, ◌∙◌, arith, List, [], ◌∷◌, ◌++◌, some,
  length, length-append, get_elem?, set,
}
use sylar.Common.Memory.{
  overwrite, slice, length-overwrite, overwrite-append_left, overwrite-append_right,
  slice-append_left, slice-append_right,
}
use sylar.ByteArray.{ByteArray, Node, Cell}

-- The bytes of all blocks, in order.
abbrev pub flat : List Node → List Cell
flat [] = []
flat (n ∷ ns) = n.cells ++ flat ns

-- Every block has the array's base size.
abbrev pub Blocks : ℕ → List Node → Type 0
Blocks base [] = Unit {0}
Blocks base (n ∷ ns) = (length n.cells ≡ base) × (n.size ≡ base) × Blocks base ns

-- The blocks make up the capacity, and m_cur is the block of the position (null behind the last).
pub record IsSeated (s : ByteArray) : Type 0 where
  pub base_pos : 0 < s.base_size
  pub blocks : Blocks s.base_size s.nodes
  pub some_block : 0 < length s.nodes
  pub all_blocks : s.capacity ≡ length s.nodes * s.base_size
  pub cur_from : s.cur * s.base_size ≤ s.position
  pub cur_until : s.position < s.cur * s.base_size + s.base_size

-- The position is within what has been written, and that within the capacity, which fits size_t.
pub record IsValid (s : ByteArray) : Type 0 where
  pub seated : IsSeated s
  pub open seated use *
  pub position_le : s.position ≤ s.size
  pub size_le : s.size ≤ s.capacity

abbrev pub content : ByteArray → List Cell
content s = flat s.nodes

pub length-flat : (base : ℕ) (ns : List Node) → Blocks base ns → length (flat ns) ≡ length ns * base
length-flat base [] h = omega arith
length-flat base (n ∷ ns) h =
    omega (arith, length-append n.cells (flat ns), length-flat base ns h.2)

pub node_at :
    (base : ℕ) (ns : List Node) (i : ℕ)
    → Blocks base ns
    → i < length ns
    → (n : Node) × (get_elem? ns i ≡ some n) × (length n.cells ≡ base) × (n.size ≡ base)
node_at base [] i h l = elim l [ ]
node_at base (n ∷ ns) zero h l = (n, refl, h.0, h.1)
node_at base (n ∷ ns) (suc i) h l = node_at base ns i h.2 (omega arith)

-- A byte of a block, by its position in the whole.
module _ (base : ℕ) where
  pub Blocks-set :
      (ns : List Node) (i p : ℕ) (ds : List Cell) {n : Node}
      → get_elem? ns i ≡ some n
      → Blocks base ns
      → Blocks base (set ns i (record n { cells = overwrite n.cells p ds }))
  Blocks-set [] i p ds e h = tt
  Blocks-set (m ∷ ns) zero p ds {n = n} e h =
      let same : m ≡ n = cc in
      (
        omega (arith, length-overwrite n.cells p ds, ap (λ (t : Node). length t.cells) same),
        omega (arith, ap (λ (t : Node). t.size) same),
        h.2,
      )
  Blocks-set (m ∷ ns) (suc i) p ds e h = (h.0, h.1, Blocks-set ns i p ds e h.2)

  pub flat-set :
      (ns : List Node) (i p : ℕ) (ds : List Cell) {n : Node}
      → get_elem? ns i ≡ some n
      → Blocks base ns
      → p + length ds ≤ base
      → flat (set ns i (record n { cells = overwrite n.cells p ds }))
        ≡ overwrite (flat ns) (i * base + p) ds
  flat-set [] i p ds e h l = refl
  flat-set (m ∷ ns) zero p ds {n = n} e h l =
      let same : m ≡ n = cc in
      let start : 0 * base + p ≡ p = omega arith in
      rw (start, same)
        (sym (
          overwrite-append_left n.cells (flat ns) p ds
            (omega (arith, ap (λ (t : Node). length t.cells) same))))
  flat-set (m ∷ ns) (suc i) p ds e h l = rw (flat-set ns i p ds e h.2 l) (
      sym (
        overwrite-append_right m.cells (flat ns) (suc i * base + p) (i * base + p) ds
          (omega arith)))

  pub slice-flat :
      (ns : List Node) (i p k : ℕ) {n : Node}
      → get_elem? ns i ≡ some n
      → Blocks base ns
      → p + k ≤ base
      → slice (flat ns) (i * base + p) k ≡ slice n.cells p k
  slice-flat [] i p k e h l = cc
  slice-flat (m ∷ ns) zero p k {n = n} e h l =
      let same : m ≡ n = cc in
      let start : 0 * base + p ≡ p = omega arith in
      rw (start, same)
        (slice-append_left n.cells (flat ns) p k
          (omega (arith, ap (λ (t : Node). length t.cells) same)))
  slice-flat (m ∷ ns) (suc i) p k e h l =
      slice-append_right m.cells (flat ns) (suc i * base + p) (i * base + p) k (omega arith)
      ∙ slice-flat ns i p k e h.2 l
