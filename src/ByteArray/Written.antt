-- ===== src/ByteArray/Written.antt =====
-- A write inside one block, as a write over a range of the whole content.
use sylar.Common.{
  ℕ, zero, suc, ◌+◌, ◌*◌, ◌≤◌, ◌<◌, ◌≡◌, refl, sym, ap, ◌∙◌, arith, inl, inr, List, [], ◌∷◌, ◌++◌,
  some, length, length-append, get_elem?, set, ◌==◌, if◌then◌else◌, Bool-cases, map,
}
use sylar.Common.Memory.{overwrite, overwrite-nil, overwrite-overwrite}
use sylar.Common.Outcome.{ok}
use sylar.ByteArray.{ByteArray, Node, Cell, store, write_last}
use sylar.ByteArray.Seated.{IsSeated, content, node_at, Blocks-set, flat-set}

-- What a write of `bytes` at the position of `s` changes.
pub record Written (bytes : List ℕ) (s t : ByteArray) : Type 0 where
  pub now : content t ≡ overwrite (content s) s.position (map some bytes)
  pub advanced : t.position ≡ s.position + length bytes
  pub same_nodes : length t.nodes ≡ length s.nodes
  pub same_capacity : t.capacity ≡ s.capacity
  pub same_size : t.size ≡ s.size
  pub same_base : t.base_size ≡ s.base_size
  pub same_endian : t.endian ≡ s.endian

pub length-map-some : (bytes : List ℕ) → length (map {B = Cell} some bytes) ≡ length bytes
length-map-some [] = refl
length-map-some (b ∷ bs) = ap suc (length-map-some bs)

pub map-append_some : (xs ys : List ℕ) → map {B = Cell} some (xs ++ ys) ≡ map some xs ++ map some ys
map-append_some [] ys = refl
map-append_some (x ∷ xs) ys = ap (◌∷◌ (some x)) (map-append_some xs ys)

length-set_node : (ns : List Node) (i : ℕ) (n : Node) → length (set ns i n) ≡ length ns
length-set_node [] i n = refl
length-set_node (m ∷ ns) zero n = refl
length-set_node (m ∷ ns) (suc i) n = ap suc (length-set_node ns i n)

get_elem?-set_node :
    (ns : List Node) (i : ℕ) (m : Node) {n : Node}
    → get_elem? ns i ≡ some n
    → get_elem? (set ns i m) i ≡ some m
get_elem?-set_node [] i m e = cc
get_elem?-set_node (x ∷ ns) zero m e = refl
get_elem?-set_node (x ∷ ns) (suc i) m e = get_elem?-set_node ns i m e

-- Two writes, one behind the other, are one.
pub Written-trans :
    (xs ys : List ℕ) {s t u : ByteArray} → Written xs s t → Written ys t u → Written (xs ++ ys) s u
Written-trans xs ys {s} {t} {u} p q = record {
  now =
      q.now
      ∙ ap (λ (c : List Cell). overwrite c t.position (map some ys)) p.now
      ∙ overwrite-overwrite (content s) s.position t.position (map some xs) (map some ys)
          (omega (arith, p.advanced, length-map-some xs))
      ∙ ap (overwrite (content s) s.position) (sym (map-append_some xs ys));
  advanced = omega (arith, p.advanced, q.advanced, length-append xs ys);
  same_nodes = q.same_nodes ∙ p.same_nodes;
  same_capacity = q.same_capacity ∙ p.same_capacity;
  same_size = q.same_size ∙ p.same_size;
  same_base = q.same_base ∙ p.same_base;
  same_endian = q.same_endian ∙ p.same_endian;
}

pub block_exists :
    (cur count base position : ℕ) → cur * base ≤ position → position < count * base → cur < count
block_exists cur count base position p q = grind arith

-- A memcpy into the current block, and the position moved behind it.
module _ (s : ByteArray) (v : IsSeated s) (npos : ℕ)
    (starts : s.position ≡ s.cur * s.base_size + npos) (bytes : List ℕ)
    (room : npos + length bytes ≤ s.base_size) (inside : s.position < s.capacity) where
  pub here :
      (n : Node) × (get_elem? s.nodes s.cur ≡ some n)
      × (length n.cells ≡ s.base_size)
      × (n.size ≡ s.base_size)
  here = node_at s.base_size s.nodes s.cur v.blocks (
      block_exists s.cur (length s.nodes) s.base_size s.position v.cur_from
        (omega (arith, v.all_blocks)))

  abbrev pub filled : Node
  filled = record here.0 { cells = overwrite here.0.cells npos (map some bytes) }

  -- The state with `cur` moved to `c`.
  abbrev pub moved : ℕ → ByteArray
  moved c = record s {
    nodes = set s.nodes s.cur filled;
    position = s.position + length bytes;
    cur = c;
  }

  pub moved-Written : (c : ℕ) → Written bytes s (moved c)
  moved-Written c = record {
    now =
        flat-set s.base_size s.nodes s.cur npos (map some bytes) here.1 v.blocks
          (omega (arith, length-map-some bytes))
        ∙ ap (λ (p : ℕ). overwrite (content s) p (map some bytes)) (sym starts);
    advanced = refl;
    same_nodes = length-set_node s.nodes s.cur filled;
    same_capacity = refl;
    same_size = refl;
    same_base = refl;
    same_endian = refl;
  }

  pub moved-IsSeated :
      (c : ℕ)
      → c * s.base_size ≤ s.position + length bytes
      → s.position + length bytes < c * s.base_size + s.base_size
      → IsSeated (moved c)
  moved-IsSeated c p q = record {
    base_pos = v.base_pos;
    blocks = Blocks-set s.base_size s.nodes s.cur npos (map some bytes) here.1 v.blocks;
    some_block = omega (arith, length-set_node s.nodes s.cur filled, v.some_block);
    all_blocks =
        v.all_blocks ∙ ap (λ (k : ℕ). k * s.base_size) (sym (length-set_node s.nodes s.cur filled));
    cur_from = p;
    cur_until = q;
  }

  pub stored : store npos bytes s ≡ ok (record s { nodes = set s.nodes s.cur filled })
  unfolding store
  stored = ground (arith, here)

  pub after_last : ℕ
  after_last = if s.base_size == npos + length bytes then suc s.cur else s.cur

  pub wrote_last : write_last npos bytes s ≡ ok (moved after_last)
  unfolding write_last after_last
  wrote_last = rw (stored, get_elem?-set_node s.nodes s.cur filled here.1, here.3)

  pub after_last-IsSeated : IsSeated (moved after_last)
  unfolding after_last
  after_last-IsSeated = elim (Bool-cases (s.base_size == npos + length bytes)) [
    | inl e ↦ rw e (moved-IsSeated (suc s.cur) (ground arith) (ground arith))
    | inr e ↦ rw e (moved-IsSeated s.cur (ground arith) (ground arith))
  ]

pub Written-nil : (s : ByteArray) → Written [] s s
Written-nil s = record {
  now = sym (overwrite-nil (content s) s.position);
  advanced = omega arith;
  same_nodes = refl;
  same_capacity = refl;
  same_size = refl;
  same_base = refl;
  same_endian = refl;
}
