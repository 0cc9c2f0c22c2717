-- ===== src/Http/Session/Body.antt =====
-- The body that recvRequest puts together, and when it returns null.
use sylar.Common.{
  ℕ, zero, suc, ◌-◌, ◌^◌, ◌≤◌, ◌<◌, ◌≡◌, refl, sym, ap, ◌∙◌, arith, inl, inr, false, ◌||◌, some,
  List, [], ◌∷◌, ◌++◌, map, length, length-append, length-take, length-replicate, take, take_all,
  replicate, ltb, leb, ◌==◌, Bool-cases,
}
use mathlib.Core.List.{append-nil}
use sylar.Common.Outcome.{ok}
use sylar.Stream.{Reply, received}
use sylar.Stream.Reading.{NoneEmpty, join, read_fix_size-join}
use sylar.Http.Parser.{RequestEvent, Grammar}
use sylar.Http.Session.{Reading, after_rest, recv_rest, recv_body, int_le_zero}

take-take_append :
    (n m : ℕ) (xs : List ℕ)
    → n ≤ m
    → (ys : List ℕ) → length ys ≡ 0
    → take n (take m xs ++ ys) ≡ take n xs
take-take_append n m xs h (y ∷ ys) e = absurd (omega arith)
take-take_append zero m xs h [] e = refl
take-take_append (suc n) zero xs h [] e = absurd (omega arith)
take-take_append (suc n) (suc m) [] h [] e = refl
take-take_append (suc n) (suc m) (x ∷ xs) h [] e =
    ap (◌∷◌ x) (take-take_append n m xs (omega arith) [] refl)

none_left : (chunks : List (List ℕ)) → NoneEmpty chunks → length (join chunks) ≡ 0 → chunks ≡ []
none_left [] full e = refl
none_left (c ∷ cs) (some_bytes, full) e =
    absurd (let sum = length-append c (join cs) in omega (arith, sum))

module _ (g : Grammar RequestEvent) where
  recv_rest-append :
      (offset left : ℕ) (chunks : List (List ℕ)) (rest : List Reply) (r : Reading g)
      → left < 2 ^ 31
      → NoneEmpty chunks
      → length (join chunks) ≡ left
      → recv_rest g (map received chunks ++ rest) offset left r
        ≡ ok (record {
          request = some (record r.parser.request { body = take offset r.buffer ++ join chunks });
          closed = false;
          replies = rest;
        })
  unfolding recv_rest after_rest
  recv_rest-append offset zero chunks rest r small full total =
      rw (none_left chunks full total, append-nil (take offset r.buffer)) refl
  recv_rest-append offset (suc left) chunks rest r small full total =
      let size : length (replicate {A = ℕ} (suc left) 0) ≡ suc left =
        length-replicate {A = ℕ} (suc left) 0 in
      let positive : int_le_zero (suc left) ≡ false = ground (arith, small) in
      rw
        (
          read_fix_size-join chunks rest (replicate (suc left) 0) full (total ∙ sym size)
              (omega (arith, size)),
          positive,
          after_rest,
        )
        refl

  -- `recv_body`, for a content length between 1 and 2^31 - 1 that resize can make, leaves the connection open and
  -- sets as the body that many bytes: those of the buffer before the offset and then those of the stream,
  -- of which it reads just the missing ones, when they come in pieces of any sizes but 0 and without an error.
  pub recv_body-take :
      (memory size : ℕ) (chunks : List (List ℕ)) (rest : List Reply) (r : Reading g)
      → 0 < size
      → size < 2 ^ 31
      → size ≤ memory
      → r.offset ≤ length r.buffer
      → NoneEmpty chunks
      → length (join chunks) ≡ size - r.offset
      → recv_body g memory size (map received chunks ++ rest) r
        ≡ ok (record {
          request = some (record r.parser.request {
            body = take size (take r.offset r.buffer ++ join chunks);
          });
          closed = false;
          replies = rest;
        })
  unfolding recv_body
  recv_body-take memory size chunks rest r positive small fits inside full total =
      let some_body : (size == 0) || leb (2 ^ 63) size ≡ false = ground (arith, positive, small) in
      let enough : ltb memory size ≡ false = ground (arith, fits) in
      rw (some_body, enough)
        (elim (Bool-cases (leb r.offset size)) [
          | inl e ↦
              let below : r.offset ≤ size = ground (arith, e) in
              let whole : take size (take r.offset r.buffer ++ join chunks)
                  ≡ take r.offset r.buffer ++ join chunks =
                take_all size (take r.offset r.buffer ++ join chunks) (
                  omega (
                    arith,
                    length-append (take r.offset r.buffer) (join chunks),
                    length-take r.offset r.buffer,
                  )) in
              rw (e, whole)
                (recv_rest-append r.offset (size - r.offset) chunks rest r (omega arith) full total)
          | inr e ↦
              let above : size < r.offset = ground (arith, e) in
              let nothing : length (join chunks) ≡ 0 = omega arith in
              let cut =
                take-take_append size r.offset r.buffer (omega arith) (join chunks) nothing in
              rw (e, cut, none_left chunks full nothing) refl
        ])
