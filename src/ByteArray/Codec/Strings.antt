-- ===== src/ByteArray/Codec/Strings.antt =====
-- The strings with a length in front.
use sylar.Common.{ℕ, ◌+◌, ◌%◌, ◌^◌, ◌<◌, ◌≡◌, refl, sym, ◌∙◌, subst, arith, List, [], length}
use sylar.Common.Outcome.{Outcome, ok, fault, ◌>>=◌, through_ok}
use sylar.Endian.{ByteOrder, to_memory}
use sylar.ByteArray.{ByteArray, write, set_position}
use sylar.ByteArray.Seated.{IsValid}
use sylar.ByteArray.Write.{write-Wrote}
use sylar.ByteArray.Read.{moved_to, read_nothing_faults}
use sylar.ByteArray.Codec.{
  swap_16, swap_32, swap_64, read_bytes, write_fuint16, write_fuint32, write_fuint64, read_fuint16,
  read_fuint32, read_fuint64, write_string_f16, write_string_f32, write_string_f64,
  write_string_vint, read_string_f16, read_string_f32, read_string_f64, read_string_vint,
}
use sylar.ByteArray.Codec.Holds.{
  Holds, Decodes, RoundTrip, Wrote-Holds, Wrote-Holds_before, Holds-transfer, read_bytes-Decodes,
  rewind,
}
use sylar.ByteArray.Codec.Fixed.{read_fuint16-Decodes, read_fuint32-Decodes, read_fuint64-Decodes}

abbrev Reader : Type 0
Reader = ByteArray → Outcome (ℕ × ByteArray)

-- A length in front of the bytes, for any reader of the length.
abbrev read_prefixed : Reader → ByteArray → Outcome (List ℕ × ByteArray)
read_prefixed rd s = do (len, t) ← rd s; read_bytes len t

module _ (front value : List ℕ) (s : ByteArray) (valid : IsValid s) (rd : Reader)
    (decodes : (u : ByteArray)
      → IsValid u
      → u.endian ≡ s.endian
      → Holds u u.position front
      → Decodes rd front (length value) u) where
  -- Two writes, one behind the other, and the position put back.
  prefixed-RoundTrip :
      0 < length value → RoundTrip s (write front s >>= write value) (read_prefixed rd) value
  prefixed-RoundTrip some_byte =
      let (t, wrote, tv, w) = write-Wrote front s valid in
      let (u, wrote', uv, w') = write-Wrote value t tv in
      let first =
        Wrote-Holds_before front value t u s.position tv w' (omega (arith, w.advanced))
          (Wrote-Holds front s t valid tv w) in
      let second = Wrote-Holds value t u tv uv w' in
      let (r, back, rv, held, at, order, same, more, _) = rewind front s.position u uv first in
      let (c, got, later) = decodes r rv (order ∙ w'.same_endian ∙ w.same_endian) held in
      let (d, got', last) =
        read_bytes-Decodes value (moved_to r (r.position + length front) c) later some_byte (
          Holds-transfer value u _ t.position (r.position + length front) second same
            (omega (arith, at, w.advanced)) more) in
      (
        u,
        moved_to r (r.position + length front + length value) d,
        rw wrote wrote',
        rw back (rw got got'),
        last,
        omega (arith, at, w.advanced, w'.advanced),
        same,
      )

  -- The length of an empty string is followed by a read of no bytes.
  prefixed_empty :
      (t : ByteArray)
      → write front s ≡ ok t
      → length value ≡ 0
      → t.position ≡ t.capacity
      → (set_position s.position t >>= read_prefixed rd) ≡ fault
  unfolding read_bytes
  prefixed_empty t' wrote' empty full' =
      let (t, wrote, tv, w) = write-Wrote front s valid in
      let same_t : t' ≡ t = cc in
      let full : t.position ≡ t.capacity = rw (← same_t) full' in
      let (r, back, rv, held, at, order, same, more, cap_r) =
        rewind front s.position t tv (Wrote-Holds front s t valid tv w) in
      let (c, got, later) = decodes r rv (order ∙ w.same_endian) held in
      let gone =
        read_nothing_faults (moved_to r (r.position + length front) c) later
          (omega (arith, at, w.advanced, cap_r)) in
      rw same_t (rw back (rw got (rw empty (rw gone))))

prefix16 : ByteArray → ℕ → List ℕ
prefix16 s n = to_memory 2 (swap_16 s.endian n)

prefix16-Decodes :
    (n : ℕ) (s : ByteArray)
    → n < 2 ^ 16
    → (u : ByteArray) → IsValid u
    → u.endian ≡ s.endian
    → Holds u u.position (prefix16 s n)
    → Decodes read_fuint16 (prefix16 s n) n u
unfolding prefix16
prefix16-Decodes n s h u uv order held = rw (← order) (
    read_fuint16-Decodes n u uv h
      (subst (λ (o : ByteOrder). Holds u u.position (to_memory 2 (swap_16 o n))) (sym order) held))

prefix32 : ByteArray → ℕ → List ℕ
prefix32 s n = to_memory 4 (swap_32 s.endian n)

prefix32-Decodes :
    (n : ℕ) (s : ByteArray)
    → n < 2 ^ 32
    → (u : ByteArray) → IsValid u
    → u.endian ≡ s.endian
    → Holds u u.position (prefix32 s n)
    → Decodes read_fuint32 (prefix32 s n) n u
unfolding prefix32
prefix32-Decodes n s h u uv order held = rw (← order) (
    read_fuint32-Decodes n u uv h
      (subst (λ (o : ByteOrder). Holds u u.position (to_memory 4 (swap_32 o n))) (sym order) held))

prefix64 : ByteArray → ℕ → List ℕ
prefix64 s n = to_memory 8 (swap_64 s.endian n)

prefix64-Decodes :
    (n : ℕ) (s : ByteArray)
    → n < 2 ^ 64
    → (u : ByteArray) → IsValid u
    → u.endian ≡ s.endian
    → Holds u u.position (prefix64 s n)
    → Decodes read_fuint64 (prefix64 s n) n u
unfolding prefix64
prefix64-Decodes n s h u uv order held = rw (← order) (
    read_fuint64-Decodes n u uv h
      (subst (λ (o : ByteOrder). Holds u u.position (to_memory 8 (swap_64 o n))) (sym order) held))

string_f16_round_trip_lem :
    (value : List ℕ) (s : ByteArray)
    → IsValid s
    → 0 < length value
    → length value < 2 ^ 16
    → RoundTrip s (write_string_f16 value s) read_string_f16 value
unfolding write_string_f16 read_string_f16 write_fuint16 prefix16
string_f16_round_trip_lem value s valid some_byte short =
    let whole : length value % 2 ^ 16 ≡ length value = omega arith in
    rw whole (
      prefixed-RoundTrip (prefix16 s (length value)) value s valid read_fuint16
        (prefix16-Decodes (length value) s short) some_byte)

string_f32_round_trip_lem :
    (value : List ℕ) (s : ByteArray)
    → IsValid s
    → 0 < length value
    → length value < 2 ^ 32
    → RoundTrip s (write_string_f32 value s) read_string_f32 value
unfolding write_string_f32 read_string_f32 write_fuint32 prefix32
string_f32_round_trip_lem value s valid some_byte short =
    let whole : length value % 2 ^ 32 ≡ length value = omega arith in
    rw whole (
      prefixed-RoundTrip (prefix32 s (length value)) value s valid read_fuint32
        (prefix32-Decodes (length value) s short) some_byte)

string_f64_round_trip_lem :
    (value : List ℕ) (s : ByteArray)
    → IsValid s
    → 0 < length value
    → length value < 2 ^ 64
    → RoundTrip s (write_string_f64 value s) read_string_f64 value
unfolding write_string_f64 read_string_f64 write_fuint64 prefix64
string_f64_round_trip_lem value s valid some_byte short =
    prefixed-RoundTrip (prefix64 s (length value)) value s valid read_fuint64
      (prefix64-Decodes (length value) s short) some_byte

string_vint_round_trip_lem :
    (value : List ℕ) (s : ByteArray)
    → IsValid s
    → 0 < length value
    → length value < 2 ^ 64
    → RoundTrip s (write_string_vint value s) read_string_vint value
unfolding write_string_vint read_string_vint write_fuint64 prefix64
string_vint_round_trip_lem value s valid some_byte short =
    prefixed-RoundTrip (prefix64 s (length value)) value s valid read_fuint64
      (prefix64-Decodes (length value) s short) some_byte

-- What is said of the four pairs of accessors.
abbrev pub StringRoundTrips : List ℕ → ByteArray → Type 0
StringRoundTrips value s =
    RoundTrip s (write_string_f16 value s) read_string_f16 value
    × RoundTrip s (write_string_f32 value s) read_string_f32 value
    × RoundTrip s (write_string_f64 value s) read_string_f64 value
    × RoundTrip s (write_string_vint value s) read_string_vint value

-- A string that is not empty and shorter than 2 ^ 16 is read back, from where the writing began, by
-- each of the four pairs of accessors.
pub string_round_trip :
    (value : List ℕ) (s : ByteArray)
    → IsValid s
    → 0 < length value
    → length value < 2 ^ 16
    → StringRoundTrips value s
string_round_trip value s valid some_byte short = (
  string_f16_round_trip_lem value s valid some_byte short,
  string_f32_round_trip_lem value s valid some_byte (omega arith),
  string_f64_round_trip_lem value s valid some_byte (omega arith),
  string_vint_round_trip_lem value s valid some_byte (omega arith),
)

only_prefix : (s t : ByteArray) → write_string_f16 [] s ≡ ok t → write (prefix16 s 0) s ≡ ok t
unfolding write_string_f16 write_fuint16 prefix16 write
only_prefix s t wrote =
    let (a, first, rest) = through_ok (write []) (write (prefix16 s 0) s) wrote in cc

-- An empty string whose length ends where the capacity ends is written, and reading it back
-- dereferences a null m_cur.
empty_string_faults :
    (s t : ByteArray)
    → IsValid s
    → write_string_f16 [] s ≡ ok t
    → t.position ≡ t.capacity
    → (set_position s.position t >>= read_string_f16) ≡ fault
unfolding read_string_f16
empty_string_faults s t valid wrote full =
    prefixed_empty (prefix16 s 0) [] s valid read_fuint16 (prefix16-Decodes 0 s (omega arith)) t
      (only_prefix s t wrote) refl full
