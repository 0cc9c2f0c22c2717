-- ===== src/ByteArray/WriteLoop.antt =====
-- The write loop, block by block.
use sylar.Common.{
  ℕ, zero, suc, ◌+◌, ◌-◌, ◌*◌, ◌≤◌, ◌<◌, ◌≡◌, refl, sym, ap, ◌∙◌, subst, arith, List, [], ◌∷◌, some,
  true, false, length, get_elem?, take, drop, leb, length-take, length-drop, take-append-drop,
}
use sylar.Common.Outcome.{Outcome, ok}
use sylar.ByteArray.{ByteArray, Node, write_last, write_block, write_loop}
use sylar.ByteArray.Seated.{IsSeated}
use native.Mathlib.Decide.{dec_le}
use sylar.ByteArray.Written.{
  Written, Written-trans, Written-nil, here, moved, moved-Written, moved-IsSeated, stored,
  after_last, wrote_last, after_last-IsSeated,
}

-- One round of the loop that fills a block: what it leaves is ready for the next round.
module _ (s : ByteArray) (v : IsSeated s) (npos : ℕ)
    (starts : s.position ≡ s.cur * s.base_size + npos) (below : npos < s.base_size) (bytes : List ℕ)
    (more : s.base_size - npos < length bytes) (fits : s.position + length bytes ≤ s.capacity) where
  abbrev ncap : ℕ
  ncap = s.base_size - npos

  taken : length (take ncap bytes) ≡ ncap
  taken = omega (arith, length-take ncap bytes)

  left : length (drop ncap bytes) ≡ length bytes - ncap
  left = length-drop ncap bytes

  chunk_room : npos + length (take ncap bytes) ≤ s.base_size
  chunk_room = omega (arith, taken)

  chunk_inside : s.position < s.capacity
  chunk_inside = omega arith

  abbrev next : ByteArray
  next = moved s v npos starts (take ncap bytes) chunk_room chunk_inside (suc s.cur)

  wrote_block : write_block npos ncap bytes s ≡ ok next
  unfolding write_block
  wrote_block =
      rw (stored s v npos starts (take ncap bytes) chunk_room chunk_inside)
        (ap (λ (k : ℕ). ok (record next { position = s.position + k })) (sym taken))

  next-IsSeated : IsSeated next
  next-IsSeated =
      moved-IsSeated s v npos starts (take ncap bytes) chunk_room chunk_inside (suc s.cur)
        (omega (arith, taken)) (omega (arith, taken))

  next-Written : Written (take ncap bytes) s next
  next-Written = moved-Written s v npos starts (take ncap bytes) chunk_room chunk_inside (suc s.cur)

  next_starts : next.position ≡ next.cur * next.base_size + 0
  next_starts = omega (arith, taken)

  next_fits : next.position + length (drop ncap bytes) ≤ next.capacity
  next_fits = omega (arith, taken, left)

  next_inside : next.position < next.capacity
  next_inside = omega (arith, taken)

loop_last :
    (fuel npos ncap b : ℕ) (bs : List ℕ) (s : ByteArray)
    → length (b ∷ bs) ≤ ncap
    → write_loop (suc fuel) npos ncap (b ∷ bs) s ≡ write_last npos (b ∷ bs) s
unfolding write_loop
loop_last fuel npos ncap b bs s h =
    let e : leb (length (b ∷ bs)) ncap ≡ true = ground arith in rw (e, write_loop)

loop_block :
    (fuel npos ncap b : ℕ) (bs : List ℕ) (s t : ByteArray) (node : Node)
    → ncap < length (b ∷ bs)
    → write_block npos ncap (b ∷ bs) s ≡ ok t
    → get_elem? t.nodes t.cur ≡ some node
    → write_loop (suc fuel) npos ncap (b ∷ bs) s
      ≡ write_loop fuel 0 node.size (drop ncap (b ∷ bs)) t
unfolding write_loop
loop_block fuel npos ncap b bs s t node h p q =
    let e : leb (length (b ∷ bs)) ncap ≡ false = ground arith in rw (e, write_loop) (rw p (rw q))

-- The loop writes all its bytes and leaves the array seated, if they fit the capacity.
abbrev pub Writes : List ℕ → ByteArray → Outcome ByteArray → Type 0
Writes bytes s r = (t : ByteArray) × (r ≡ ok t) × IsSeated t × Written bytes s t

pub write_loop_lem :
    (fuel npos room : ℕ) (bytes : List ℕ) (s : ByteArray) (v : IsSeated s)
    → s.position ≡ s.cur * s.base_size + npos
    → npos < s.base_size
    → room ≡ s.base_size - npos
    → length bytes ≤ fuel
    → s.position + length bytes ≤ s.capacity
    → Writes bytes s (write_loop fuel npos room bytes s)
write_loop_lem fuel npos room [] s v starts below e enough fits =
    (s, unfold write_loop in refl, v, Written-nil s)
write_loop_lem zero npos room (b ∷ bs) s v starts below e enough fits = absurd (omega arith)
write_loop_lem (suc fuel) npos room (b ∷ bs) s v starts below e enough fits =
    rw e (elim (dec_le (length (b ∷ bs)) (s.base_size - npos)) [
      | yes last ↦ last_round (omega arith) (omega arith) last
      | no full ↦ block_round (omega arith) (
          write_loop_lem fuel 0 s.base_size (drop (s.base_size - npos) (b ∷ bs))
            (next s v npos starts below (b ∷ bs) (omega arith) fits)
            (next-IsSeated s v npos starts below (b ∷ bs) (omega arith) fits)
            (next_starts s v npos starts below (b ∷ bs) (omega arith) fits) v.base_pos (omega arith)
            (omega (arith, left s v npos starts below (b ∷ bs) (omega arith) fits))
            (next_fits s v npos starts below (b ∷ bs) (omega arith) fits))
    ])
  where
    last_round :
        npos + length (b ∷ bs) ≤ s.base_size
        → s.position < s.capacity
        → length (b ∷ bs) ≤ s.base_size - npos
        → Writes (b ∷ bs) s (write_loop (suc fuel) npos (s.base_size - npos) (b ∷ bs) s)
    last_round room inside last = (
      moved s v npos starts (b ∷ bs) room inside (after_last s v npos starts (b ∷ bs) room inside),
      loop_last fuel npos _ b bs s last ∙ wrote_last s v npos starts (b ∷ bs) room inside,
      after_last-IsSeated s v npos starts (b ∷ bs) room inside,
      moved-Written s v npos starts (b ∷ bs) room inside _,
    )

    block_round :
        (full : s.base_size - npos < length (b ∷ bs))
        → (let t = next s v npos starts below (b ∷ bs) full fits in
            Writes
              (drop (s.base_size - npos) (b ∷ bs))
              t
              (write_loop fuel 0 s.base_size (drop (s.base_size - npos) (b ∷ bs)) t))
        → Writes (b ∷ bs) s (write_loop (suc fuel) npos (s.base_size - npos) (b ∷ bs) s)
    block_round full (u, done, seated, written) =
        let t = next s v npos starts below (b ∷ bs) full fits in
        let w = next-IsSeated s v npos starts below (b ∷ bs) full fits in
        let (node, found, _, size) =
          here t w 0 (next_starts s v npos starts below (b ∷ bs) full fits) [] (omega arith)
            (next_inside s v npos starts below (b ∷ bs) full fits) in
        (
          u,
          loop_block fuel npos _ b bs s t node full
                (wrote_block s v npos starts below (b ∷ bs) full fits) found
              ∙ rw size done,
          seated,
          subst (λ (l : List ℕ). Written l s u) (take-append-drop (s.base_size - npos) (b ∷ bs))
              (Written-trans _ _ (next-Written s v npos starts below (b ∷ bs) full fits) written),
        )
