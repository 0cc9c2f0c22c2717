-- ===== src/Stream/Reading.antt =====
-- readFixSize puts pieces together.
use sylar.Common.{
  ℕ, zero, suc, ◌+◌, ◌-◌, ◌%◌, ◌^◌, ◌≤◌, ◌<◌, ◌≡◌, refl, sym, ap, ◌∙◌, arith, List, [], ◌∷◌, ◌++◌,
  map, length, length-append, leb, sub_u64, true,
}
use sylar.Common.Memory.{overwrite, overwrite-nil, overwrite-overwrite, length-overwrite}
use sylar.Common.Outcome.{ok}
use sylar.Stream.{Reply, received, read_fix_loop, read_fix_size}

abbrev pub join : List (List ℕ) → List ℕ
join [] = []
join (c ∷ cs) = c ++ join cs

abbrev pub NoneEmpty : List (List ℕ) → Type 0
NoneEmpty [] = Unit
NoneEmpty (c ∷ cs) = (0 < length c) × NoneEmpty cs

read_fix_step :
    (bytes : List ℕ) (replies : List Reply) (offset left : ℕ) (buffer : List ℕ)
    → 0 < length bytes
    → length bytes ≤ left
    → offset + left ≤ length buffer
    → length buffer < 2 ^ 64
    → read_fix_loop (received bytes ∷ replies) offset left buffer
      ≡ read_fix_loop replies
          (offset + length bytes)
          (left - length bytes)
          (overwrite buffer offset bytes)
unfolding read_fix_loop
read_fix_step bytes replies offset zero buffer some_bytes short fits small = absurd (omega arith)
read_fix_step bytes replies offset (suc left) buffer some_bytes short fits small =
    let inside : leb (offset + length bytes) (length buffer) ≡ true = ground (arith, short, fits) in
    let next : (offset + length bytes) % 2 ^ 64 ≡ offset + length bytes = omega arith in
    let less : sub_u64 (suc left) (length bytes) ≡ suc left - length bytes =
      ground (arith, short) in
    rw (inside, next, less, read_fix_loop) refl

read_fix_loop_lem :
    (chunks : List (List ℕ)) (rest : List Reply) (offset left : ℕ) (buffer : List ℕ)
    → NoneEmpty chunks
    → length (join chunks) ≡ left
    → offset + left ≤ length buffer
    → length buffer < 2 ^ 64
    → read_fix_loop (map received chunks ++ rest) offset left buffer
      ≡ ok (overwrite buffer offset (join chunks), rest)
unfolding read_fix_loop
read_fix_loop_lem [] rest offset zero buffer full total fits small =
    ap (λ b. ok (b, rest)) (sym (overwrite-nil buffer offset))
read_fix_loop_lem [] rest offset (suc left) buffer full total fits small = absurd (omega arith)
read_fix_loop_lem (c ∷ cs) rest offset left buffer (some_bytes, full) total fits small =
    let sum : length c + length (join cs) ≡ left = sym (length-append c (join cs)) ∙ total in
    let same = length-overwrite buffer offset c in
    read_fix_step c (map received cs ++ rest) offset left buffer some_bytes (omega arith) fits small
    ∙ read_fix_loop_lem cs rest (offset + length c) (left - length c) (overwrite buffer offset c)
        full (omega arith) (omega (arith, same)) (omega (arith, same))
    ∙ ap (λ b. ok (b, rest))
        (overwrite-overwrite buffer offset (offset + length c) c (join cs) refl)

overwrite_all :
    (buffer bytes : List ℕ) → length bytes ≡ length buffer → overwrite buffer 0 bytes ≡ bytes
overwrite_all [] [] e = refl
overwrite_all [] (b ∷ bs) e = absurd (omega arith)
overwrite_all (x ∷ xs) [] e = absurd (omega arith)
overwrite_all (x ∷ xs) (b ∷ bs) e = ap (λ r. b ∷ r) (overwrite_all xs bs (omega arith))

-- `read_fix_size`, when the stream delivers the length of the buffer in pieces of any sizes but 0, without an
-- error, ends with the pieces put together in the buffer and calls `read` no further. The length is below 2^64.
pub read_fix_size-join :
    (chunks : List (List ℕ)) (rest : List Reply) (buffer : List ℕ)
    → NoneEmpty chunks
    → length (join chunks) ≡ length buffer
    → length buffer < 2 ^ 64
    → read_fix_size (map received chunks ++ rest) buffer ≡ ok (join chunks, rest)
unfolding read_fix_size
read_fix_size-join chunks rest buffer full total small =
    read_fix_loop_lem chunks rest 0 (length buffer) buffer full total (omega arith) small
    ∙ ap (λ b. ok (b, rest)) (overwrite_all buffer (join chunks) total)
