-- ===== src/ByteArray/Growth.antt =====
-- addCapacity: how far the chain grows, and what it leaves alone.
use sylar.Common.{
  ℕ, zero, suc, ◌+◌, ◌-◌, ◌*◌, ◌≤◌, ◌<◌, ◌≡◌, refl, sym, ap, ◌∙◌, arith, ◌⊎◌, inl, inr, List, [],
  ◌∷◌, ◌++◌, none, length, length-append, replicate, leb, ◌==◌, if◌then◌else◌, Bool-cases,
}
use sylar.Common.Outcome.{ok}
use sylar.ByteArray.{ByteArray, Node, Cell, new_node, append_nodes, add_capacity, ceil_div}
use sylar.ByteArray.Seated.{flat, Blocks, IsValid, content}
use mathlib.Core.List.{append-nil, append_assoc}

-- The state that addCapacity(n) leaves.
pub record Grown (n : ℕ) (s t : ByteArray) : Type 0 where
  pub kept : content t ≡ content s ++ replicate (t.capacity - s.capacity) none
  pub room : s.position + n ≤ t.capacity
  pub no_more : (t.capacity ≡ s.capacity) ⊎ (t.capacity < s.position + n + s.base_size)
  pub no_less : s.capacity ≤ t.capacity
  pub same_position : t.position ≡ s.position
  pub same_size : t.size ≡ s.size
  pub same_base : t.base_size ≡ s.base_size
  pub same_endian : t.endian ≡ s.endian

Blocks-append :
    (base : ℕ) (ns ms : List Node) → Blocks base ns → Blocks base ms → Blocks base (ns ++ ms)
Blocks-append base [] ms h k = k
Blocks-append base (n ∷ ns) ms h k = (h.0, h.1, Blocks-append base ns ms h.2 k)

flat-append : (ns ms : List Node) → flat (ns ++ ms) ≡ flat ns ++ flat ms
flat-append [] ms = refl
flat-append (n ∷ ns) ms = rw (flat-append ns ms) (sym (append_assoc n.cells (flat ns) (flat ms)))

pub length-replicate_cells : (n : ℕ) → length (replicate {A = Cell} n none) ≡ n
length-replicate_cells zero = refl
length-replicate_cells (suc n) = ap suc (length-replicate_cells n)

replicate-append :
    (m n k : ℕ) → k ≡ m + n → replicate {A = Cell} m none ++ replicate n none ≡ replicate k none
replicate-append zero n k e =
    let e' : n ≡ k = omega arith in ap (λ (t : ℕ). replicate {A = Cell} t none) e'
replicate-append (suc m) n zero e = absurd (omega arith)
replicate-append (suc m) n (suc k) e = ap (◌∷◌ none) (replicate-append m n k (omega arith))

-- One round of the loop.
abbrev add_node : ByteArray → ByteArray
add_node s = record s {
  nodes = s.nodes ++ (new_node s.base_size ∷ []);
  capacity = s.capacity + s.base_size;
}

-- The loop, by its rounds.
record Appended (count : ℕ) (s t : ByteArray) : Type 0 where
  added : content t ≡ content s ++ replicate (count * s.base_size) none
  blocks : Blocks s.base_size t.nodes
  count_nodes : length t.nodes ≡ length s.nodes + count
  more : t.capacity ≡ s.capacity + count * s.base_size
  same_cur : t.cur ≡ s.cur
  same_position : t.position ≡ s.position
  same_size : t.size ≡ s.size
  same_base : t.base_size ≡ s.base_size
  same_endian : t.endian ≡ s.endian

new_node-Blocks : (base : ℕ) → Blocks base (new_node base ∷ [])
unfolding new_node
new_node-Blocks base = (length-replicate_cells base, refl, tt)

content-add_node : (s : ByteArray) → content (add_node s) ≡ content s ++ replicate s.base_size none
unfolding new_node
content-add_node s =
    flat-append s.nodes (new_node s.base_size ∷ [])
    ∙ ap (◌++◌ (flat s.nodes)) (append-nil (replicate s.base_size none))

no_growth : (c : ℕ) → 0 ≡ c - c
no_growth c = omega arith

nothing : (b : ℕ) → 0 ≡ 0 * b
nothing b = omega arith

append_nodes-Appended :
    (count : ℕ) (s : ByteArray)
    → Blocks s.base_size s.nodes
    → Appended count s (append_nodes count s)
unfolding append_nodes
append_nodes-Appended zero s h = record {
  added =
      sym (append-nil (content s))
      ∙ ap (λ (k : ℕ). content s ++ replicate k none) (nothing s.base_size);
  blocks = h;
  count_nodes = omega arith;
  more = omega arith;
  same_cur = refl;
  same_position = refl;
  same_size = refl;
  same_base = refl;
  same_endian = refl;
}
append_nodes-Appended (suc count) s h =
    let rest =
      append_nodes-Appended count (add_node s)
        (Blocks-append s.base_size s.nodes _ h (new_node-Blocks s.base_size)) in
    record {
      added =
          rest.added
          ∙ ap (λ (c : List Cell). c ++ replicate (count * s.base_size) none) (content-add_node s)
          ∙ append_assoc (content s) _ _
          ∙ ap (◌++◌ (content s)) (
              replicate-append s.base_size (count * s.base_size) (suc count * s.base_size)
                (omega arith));
      blocks = rest.blocks;
      count_nodes =
          omega (arith, rest.count_nodes, length-append s.nodes (new_node s.base_size ∷ []));
      more = omega (arith, rest.more);
      same_cur = rest.same_cur;
      same_position = rest.same_position;
      same_size = rest.same_size;
      same_base = rest.same_base;
      same_endian = rest.same_endian;
    }

-- The blocks that are added suffice, and one less would not.
enough : (m base : ℕ) → 0 < base → 0 < m → m ≤ ceil_div m base * base
enough m base h p = grind arith

not_too_many : (m base : ℕ) → 0 < base → 0 < m → ceil_div m base * base < m + base
not_too_many m base h p = grind arith

-- A block is determined by a position inside it.
pub block_unique :
    (a b x base : ℕ)
    → a * base ≤ x
    → x < a * base + base
    → b * base ≤ x
    → x < b * base + base
    → a ≡ b
block_unique a b x base p q r t = grind arith

-- The branch that grows. Where no room was left, m_cur was null and becomes the first new block,
-- which is where the position lies.
module _ (n : ℕ) (s : ByteArray) (v : IsValid s) (short : s.capacity < s.position + n) where
  abbrev count : ℕ
  count = ceil_div (n - (s.capacity - s.position)) s.base_size

  abbrev grown : ByteArray
  grown =
      let t = append_nodes count s in
      record t { cur = if s.capacity - s.position == 0 then length s.nodes else t.cur }

  appended : Appended count s (append_nodes count s)
  appended = append_nodes-Appended count s v.blocks

  grown-cur : grown.cur ≡ s.cur
  grown-cur = elim (Bool-cases (s.capacity - s.position == 0)) [
    | inl e ↦ rw e (
        block_unique (length s.nodes) s.cur s.position s.base_size (ground arith) (ground arith)
          v.cur_from v.cur_until)
    | inr e ↦ rw e appended.same_cur
  ]

  grown-IsValid : IsValid grown
  grown-IsValid =
      let base = appended.same_base in
      record {
        seated = record {
          base_pos = omega arith;
          blocks = rw base appended.blocks;
          some_block = omega (arith, appended.count_nodes);
          all_blocks =
              rw base (
                omega (arith, appended.more, ap (λ (t : ℕ). t * s.base_size) appended.count_nodes));
          cur_from = rw (grown-cur, base, appended.same_position) v.cur_from;
          cur_until = rw (grown-cur, base, appended.same_position) v.cur_until;
        };
        position_le = omega (arith, appended.same_position, appended.same_size);
        size_le = omega (arith, appended.same_size, appended.more);
      }

  grown-Grown : Grown n s grown
  grown-Grown =
      let up = enough (n - (s.capacity - s.position)) s.base_size v.base_pos (omega arith) in
      let down =
        not_too_many (n - (s.capacity - s.position)) s.base_size v.base_pos (omega arith) in
      let same : (append_nodes count s).capacity - s.capacity ≡ count * s.base_size =
        omega (arith, appended.more) in
      record {
        kept = rw same appended.added;
        room = omega (arith, appended.more);
        no_more = inr (omega (arith, appended.more));
        no_less = omega (arith, appended.more);
        same_position = appended.same_position;
        same_size = appended.same_size;
        same_base = appended.same_base;
        same_endian = appended.same_endian;
      }

-- On a valid array addCapacity succeeds, keeps the array valid and its bytes, makes room for n bytes
-- behind the position, and appends no more whole blocks than needed.
pub add_capacity-Grown :
    (n : ℕ) (s : ByteArray)
    → IsValid s
    → (t : ByteArray) × (add_capacity n s ≡ ok t) × IsValid t × Grown n s t
unfolding add_capacity
add_capacity-Grown n s v = elim (Bool-cases (leb (s.position + n) s.capacity)) [
  | inl fits ↦ (
    s,
    ground arith,
    v,
    record {
      kept =
          sym (append-nil (content s))
          ∙ ap (λ (k : ℕ). content s ++ replicate k none) (no_growth s.capacity);
      room = ground arith;
      no_more = inl refl;
      no_less = omega arith;
      same_position = refl;
      same_size = refl;
      same_base = refl;
      same_endian = refl;
    },
  )
  | inr short ↦
      let short' : s.capacity < s.position + n = ground arith in
      (grown n s v short', ground arith, grown-IsValid n s v short', grown-Grown n s v short')
]
