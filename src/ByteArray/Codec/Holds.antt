-- ===== src/ByteArray/Codec/Holds.antt =====
-- What an array holds at a place, what writes do to it, and how it is read back.
use sylar.Common.{
  ℕ, ◌+◌, ◌-◌, ◌≤◌, ◌<◌, ◌≡◌, refl, sym, ap, ◌∙◌, arith, List, [], ◌∷◌, ◌++◌, some, none, length,
  length-append, max, replicate, map,
}
use sylar.Common.Memory.{
  overwrite, slice, slice-overwrite, slice-overwrite_before, slice-append_left,
}
use sylar.Common.Outcome.{Outcome, ok, ◌>>=◌}
use sylar.ByteArray.{ByteArray, Cell, write, set_position}
use sylar.ByteArray.Seated.{IsValid, content, length-flat}
use sylar.ByteArray.Growth.{length-replicate_cells}
use sylar.ByteArray.Write.{Wrote, write-Wrote}
use sylar.ByteArray.Written.{length-map-some}
use sylar.ByteArray.Read.{moved_to, read-slice}
use sylar.ByteArray.Position.{set_position_lem}
use sylar.ByteArray.Codec.{determined, read_bytes}

-- The bytes stand at `p`, within the size.
pub record Holds (s : ByteArray) (p : ℕ) (bytes : List ℕ) : Type 0 where
  pub there : slice (content s) p (length bytes) ≡ map {B = Cell} some bytes
  pub within : p + length bytes ≤ s.size

-- The content before a write covers what the write replaces.
length-grown :
    (s : ByteArray) (k : ℕ)
    → IsValid s
    → length (content s ++ replicate {A = Cell} k none) ≡ s.capacity + k
length-grown s k v = omega (
  arith,
  length-append (content s) (replicate {A = Cell} k none),
  length-replicate_cells k,
  length-flat s.base_size s.nodes v.blocks,
  v.all_blocks,
)

abbrev grown : ByteArray → ByteArray → List Cell
grown s t = content s ++ replicate (t.capacity - s.capacity) none

-- A write of `bytes` leaves them at the old position.
pub Wrote-Holds :
    (bytes : List ℕ) (s t : ByteArray)
    → IsValid s
    → IsValid t
    → Wrote bytes s t
    → Holds t s.position bytes
Wrote-Holds bytes s t v u w = record {
  there =
      ap (λ (c : List Cell). slice c s.position (length bytes)) w.now
      ∙ ap (λ (k : ℕ). slice (overwrite (grown s t) s.position (map some bytes)) s.position k)
          (sym (length-map-some bytes))
      ∙ slice-overwrite (grown s t) s.position (map some bytes) (
          omega (
            arith,
            length-grown s (t.capacity - s.capacity) v,
            length-map-some bytes,
            w.covers,
            u.size_le,
          ));
  within = omega (arith, w.covers);
}

-- A write further on leaves them there.
pub Wrote-Holds_before :
    (bytes more : List ℕ) (s t : ByteArray) (p : ℕ)
    → IsValid s
    → Wrote more s t
    → p + length bytes ≤ s.position
    → Holds s p bytes
    → Holds t p bytes
Wrote-Holds_before bytes more s t p v w before h = record {
  there =
      ap (λ (c : List Cell). slice c p (length bytes)) w.now
      ∙ slice-overwrite_before _ p (length bytes) s.position (map some more) before
      ∙ slice-append_left (content s) _ p (length bytes) (
          omega (
            arith,
            length-flat s.base_size s.nodes v.blocks,
            v.all_blocks,
            v.position_le,
            v.size_le,
          ))
      ∙ h.there;
  within = omega (arith, w.covers, h.within);
}

-- The same bytes at the same place of another array.
pub Holds-transfer :
    (bytes : List ℕ) (s t : ByteArray) (p q : ℕ)
    → Holds s p bytes
    → content t ≡ content s
    → q ≡ p
    → s.size ≤ t.size
    → Holds t q bytes
Holds-transfer bytes s t p q h same at more = record {
  there = rw (same, at) h.there;
  within = omega (arith, h.within);
}

determined-map-some : (bytes : List ℕ) → determined (map some bytes) ≡ ok bytes
unfolding determined
determined-map-some [] = refl
determined-map-some (b ∷ bs) = rw (determined-map-some bs)

-- A reader that takes `bytes` at the position for the value `a`, and moves behind them.
abbrev pub Decodes {ℓ} :
    {A : Type ℓ} → (ByteArray → Outcome (A × ByteArray)) → List ℕ → A → ByteArray → Type ℓ
Decodes rd bytes a s =
    (c : ℕ) × (rd s ≡ ok (a, moved_to s (s.position + length bytes) c))
    × IsValid (moved_to s (s.position + length bytes) c)

pub read_bytes-Decodes :
    (bytes : List ℕ) (s : ByteArray)
    → IsValid s
    → 0 < length bytes
    → Holds s s.position bytes
    → Decodes (read_bytes (length bytes)) bytes bytes s
unfolding read_bytes
read_bytes-Decodes bytes s v some_byte h =
    let (c, done, valid) = read-slice (length bytes) s v some_byte h.within in
    (c, rw done (rw h.there (rw (determined-map-some bytes))), valid)

-- What is written and then read from where the writing began.
abbrev pub RoundTrip {ℓ} :
    {A : Type ℓ}
    → ByteArray
    → Outcome ByteArray
    → (ByteArray → Outcome (A × ByteArray))
    → A
    → Type ℓ
RoundTrip s written rd a =
    (t : ByteArray) × (u : ByteArray) × (written ≡ ok t)
    × ((set_position s.position t >>= rd) ≡ ok (a, u))
    × IsValid u
    × (u.position ≡ t.position)
    × (content u ≡ content t)

-- The position put back to `p`.
pub rewind :
    (bytes : List ℕ) (p : ℕ) (t : ByteArray)
    → IsValid t
    → Holds t p bytes
    → (u : ByteArray) × (set_position p t ≡ ok u)
      × IsValid u
      × Holds u u.position bytes
      × (u.position ≡ p)
      × (u.endian ≡ t.endian)
      × (content u ≡ content t)
      × (t.size ≤ u.size)
      × (u.capacity ≡ t.capacity)
rewind bytes p t v h =
    let (c, done, valid) = set_position_lem p t v (omega (arith, h.within, v.size_le)) in
    (
      record t { position = p; size = max t.size p; cur = c },
      done,
      valid,
      record { there = h.there; within = omega (arith, h.within) },
      refl,
      refl,
      refl,
      omega arith,
      refl,
    )

pub round_trip {ℓ} :
    {A : Type ℓ} (bytes : List ℕ) (s : ByteArray) (rd : ByteArray → Outcome (A × ByteArray)) (a : A)
    → IsValid s
    → ((u : ByteArray)
        → IsValid u
        → u.endian ≡ s.endian
        → Holds u u.position bytes
        → Decodes rd bytes a u)
    → RoundTrip s (write bytes s) rd a
round_trip bytes s rd a v decodes =
    let (t, done, tv, w) = write-Wrote bytes s v in
    let (u, back, uv, held, at, order, same, _, _) =
      rewind bytes s.position t tv (Wrote-Holds bytes s t v tv w) in
    let (c, got, valid) = decodes u uv (order ∙ w.same_endian) held in
    (
      t,
      moved_to u (u.position + length bytes) c,
      done,
      rw back got,
      valid,
      omega (arith, at, w.advanced),
      same,
    )
