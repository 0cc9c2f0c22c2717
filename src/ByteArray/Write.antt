-- ===== src/ByteArray/Write.antt =====
-- `write` refines one write over a range of the whole content.
use sylar.Common.{
  ℕ, ◌+◌, ◌-◌, ◌*◌, ◌%◌, ◌≤◌, ◌<◌, ◌≡◌, refl, sym, ap, ◌∙◌, arith, List, [], ◌∷◌, ◌++◌, none, some,
  false, length, get_elem?, replicate, ltb, ◌==◌, if◌then◌else◌, map, max, sub_u64, ◌/◌,
}
use sylar.Common.Memory.{overwrite, overwrite-nil}
use sylar.Common.Outcome.{ok}
use sylar.ByteArray.{ByteArray, Node, Cell, write_loop, write, add_capacity}
use sylar.ByteArray.Seated.{IsValid, content, node_at}
use sylar.ByteArray.Growth.{add_capacity-Grown, block_unique}
use mathlib.Core.List.{append-nil}
use sylar.ByteArray.Written.{block_exists}
use sylar.ByteArray.WriteLoop.{write_loop_lem}

-- What a call of `write` changes: the bytes replace what stood from the position on, in a content
-- that may have grown at its end; the position moves behind them, and the size covers it.
pub record Wrote (bytes : List ℕ) (s t : ByteArray) : Type 0 where
  pub now :
      content t
      ≡ overwrite
          (content s ++ replicate (t.capacity - s.capacity) none)
          s.position
          (map some bytes)
  pub advanced : t.position ≡ s.position + length bytes
  pub covers : t.size ≡ max s.size (s.position + length bytes)
  pub no_less : s.capacity ≤ t.capacity
  pub same_base : t.base_size ≡ s.base_size
  pub same_endian : t.endian ≡ s.endian

nothing_added : (s : ByteArray) → content s ≡ content s ++ replicate (s.capacity - s.capacity) none
nothing_added s =
    sym (append-nil (content s))
    ∙ ap (λ (k : ℕ). content s ++ replicate k none)
        (let e : 0 ≡ s.capacity - s.capacity = omega arith in e)

Wrote-nil : (s : ByteArray) → IsValid s → Wrote [] s s
Wrote-nil s v = record {
  now =
      sym (overwrite-nil (content s) s.position)
      ∙ ap (λ (c : List Cell). overwrite c s.position []) (nothing_added s);
  advanced = omega arith;
  covers = omega arith;
  no_less = omega arith;
  same_base = refl;
  same_endian = refl;
}

-- Where in its block the position lies.
pub offset_lem :
    (cur base p : ℕ)
    → cur * base ≤ p
    → p < cur * base + base
    → (p ≡ cur * base + p % base) × (p % base < base)
offset_lem cur base p lo hi =
    let same : p / base ≡ cur =
      block_unique (p / base) cur p base (grind arith) (grind arith) lo hi in
    let div : p ≡ p / base * base + p % base = grind arith in (rw same at div, grind arith)

-- The new size is that of `write`'s last lines.
abbrev finish : ByteArray → ByteArray
finish u = record u { size = if ltb u.size u.position then u.position else u.size }

write_steps :
    (b : ℕ) (bs : List ℕ) (s t u : ByteArray) (n : Node)
    → add_capacity (length (b ∷ bs)) s ≡ ok t
    → 0 < t.base_size
    → get_elem? t.nodes t.cur ≡ some n
    → n.size ≡ t.base_size
    → t.position % t.base_size < t.base_size
    → write_loop
        (length (b ∷ bs))
        (t.position % t.base_size)
        (t.base_size - t.position % t.base_size)
        (b ∷ bs)
        t
      ≡ ok u
    → write (b ∷ bs) s ≡ ok (finish u)
unfolding write
write_steps b bs s t u n grow base found size below loop =
    let not_zero : (t.base_size == 0) ≡ false = ground arith in
    let room : sub_u64 n.size (t.position % t.base_size) ≡ t.base_size - t.position % t.base_size =
      ground arith in
    rw grow (rw not_zero (rw found (rw room (rw loop))))

-- On a valid array `write` succeeds, whatever the length, and leaves a valid array in which the
-- bytes stand at the old position.
pub write-Wrote :
    (bytes : List ℕ) (s : ByteArray)
    → IsValid s
    → (t : ByteArray) × (write bytes s ≡ ok t) × IsValid t × Wrote bytes s t
write-Wrote [] s v = (s, unfold write in refl, v, Wrote-nil s v)
write-Wrote (b ∷ bs) s v =
    let (t, grow, tv, g) = add_capacity-Grown (length (b ∷ bs)) s v in
    let fits : t.position + length (b ∷ bs) ≤ t.capacity = omega (arith, g.room, g.same_position) in
    let exists =
      block_exists t.cur (length t.nodes) t.base_size t.position tv.cur_from
        (omega (arith, tv.all_blocks)) in
    let (n, found, _, size) = node_at t.base_size t.nodes t.cur tv.blocks exists in
    let (at, below) = offset_lem t.cur t.base_size t.position tv.cur_from tv.cur_until in
    let (u, loop, seated, w) =
      write_loop_lem (length (b ∷ bs)) _ _ (b ∷ bs) t tv.seated at below refl (omega arith) fits in
    let same : u.capacity - s.capacity ≡ t.capacity - s.capacity = omega (arith, w.same_capacity) in
    (
      finish u,
      write_steps b bs s t u n grow tv.base_pos found size below loop,
      record {
        seated = record {
          base_pos = seated.base_pos;
          blocks = seated.blocks;
          some_block = seated.some_block;
          all_blocks = seated.all_blocks;
          cur_from = seated.cur_from;
          cur_until = seated.cur_until;
        };
        position_le = ground arith;
        size_le = ground (arith, w.advanced, w.same_capacity, w.same_size, tv.size_le);
      },
      record {
        now =
            w.now
            ∙ rw (same, g.same_position)
                (ap (λ (c : List Cell). overwrite c s.position (map some (b ∷ bs))) g.kept);
        advanced = w.advanced ∙ ap (λ (p : ℕ). p + length (b ∷ bs)) g.same_position;
        covers = ground (arith, w.advanced, w.same_size, g.same_position, g.same_size);
        no_less = omega (arith, w.same_capacity, g.no_less);
        same_base = w.same_base ∙ g.same_base;
        same_endian = w.same_endian ∙ g.same_endian;
      },
    )
