-- ===== src/ByteArray/Examples.antt =====
-- Runs on arrays of small blocks, and the theorems at such arrays.
use sylar.Common.{ℕ, ◌≡◌, refl, arith, [], ◌∷◌, some, none, take}
use sylar.Common.Int.{negsuc}
use sylar.Common.Memory.{slice}
use sylar.Common.Outcome.{ok, ◌>>=◌}
use sylar.Endian.{big_endian}
use sylar.ByteArray.{ByteArray, new_byte_array, add_capacity, write, read, set_position}
use sylar.ByteArray.Seated.{IsValid, content}
use sylar.ByteArray.Growth.{Grown, add_capacity-Grown}
use sylar.ByteArray.Write.{Wrote, write-Wrote}
use sylar.ByteArray.Read.{moved_to, read-slice}
use sylar.ByteArray.Position.{new_byte_array-IsValid}
use sylar.ByteArray.Codec.{write_uint32, write_int32, read_int32, encode_zigzag32}
use sylar.ByteArray.Codec.Fixed.{FixedRoundTrips, fixed_round_trip}
use sylar.ByteArray.Codec.Holds.{RoundTrip}
use sylar.ByteArray.Codec.Varint.{int32-RoundTrip}
use sylar.ByteArray.Codec.Strings.{StringRoundTrips, string_round_trip}

abbrev fresh : ByteArray
unfolding new_byte_array
fresh = new_byte_array 4

fresh-IsValid : IsValid (new_byte_array 4)
fresh-IsValid = new_byte_array-IsValid 4 (omega arith)

-- Five bytes in two blocks of four, read from the start.
abbrev five_bytes : ByteArray
five_bytes = record {
  base_size = 4;
  position = 0;
  capacity = 8;
  size = 5;
  endian = big_endian;
  nodes =
      record { cells = some 1 ∷ some 2 ∷ some 3 ∷ some 4 ∷ []; size = 4 }
      ∷ record { cells = some 5 ∷ none ∷ none ∷ none ∷ []; size = 4 }
      ∷ [];
  cur = 0;
}

five_bytes-IsValid : IsValid five_bytes
five_bytes-IsValid = record {
  seated = record {
    base_pos = omega arith;
    blocks = omega arith;
    some_block = omega arith;
    all_blocks = refl;
    cur_from = omega arith;
    cur_until = omega arith;
  };
  position_le = omega arith;
  size_le = omega arith;
}

-- Two bytes in one block of two, at its end.
abbrev full : ByteArray
full = record {
  base_size = 2;
  position = 2;
  capacity = 2;
  size = 2;
  endian = big_endian;
  nodes = record { cells = some 0 ∷ some 0 ∷ []; size = 2 } ∷ [];
  cur = 1;
}

full-IsValid : IsValid full
full-IsValid = record {
  seated = record {
    base_pos = omega arith;
    blocks = omega arith;
    some_block = omega arith;
    all_blocks = refl;
    cur_from = omega arith;
    cur_until = omega arith;
  };
  position_le = omega arith;
  size_le = omega arith;
}

writes_five : (write (1 ∷ 2 ∷ 3 ∷ 4 ∷ 5 ∷ []) (new_byte_array 4) >>= set_position 0) ≡ ok five_bytes
unfolding write set_position new_byte_array
writes_five = refl

reads_across :
    (read 5 five_bytes >>= λ r. ok r.0) ≡ ok (some 1 ∷ some 2 ∷ some 3 ∷ some 4 ∷ some 5 ∷ [])
unfolding read
reads_across = refl

writes_300 :
    (write_uint32 300 (new_byte_array 4) >>= λ s. ok (take 2 (content s)))
    ≡ ok (some 0xac ∷ some 2 ∷ [])
unfolding write_uint32 write new_byte_array
writes_300 = refl

zigzags : encode_zigzag32 (negsuc 1) ≡ 3
unfolding encode_zigzag32
zigzags = refl

add_capacity-Grown_example :
    (t : ByteArray) × (add_capacity 9 five_bytes ≡ ok t) × IsValid t × Grown 9 five_bytes t
add_capacity-Grown_example = add_capacity-Grown 9 five_bytes five_bytes-IsValid

write-Wrote_example :
    (t : ByteArray) × (write (6 ∷ 7 ∷ []) five_bytes ≡ ok t)
    × IsValid t
    × Wrote (6 ∷ 7 ∷ []) five_bytes t
write-Wrote_example = write-Wrote (6 ∷ 7 ∷ []) five_bytes five_bytes-IsValid

read-slice_example :
    (c : ℕ) × (read 5 five_bytes ≡ ok (slice (content five_bytes) 0 5, moved_to five_bytes 5 c))
    × IsValid (moved_to five_bytes 5 c)
read-slice_example = read-slice 5 five_bytes five_bytes-IsValid (omega arith) (omega arith)

int32-RoundTrip_example :
    RoundTrip five_bytes (write_int32 (negsuc 0) five_bytes) read_int32 (negsuc 0)
int32-RoundTrip_example = int32-RoundTrip (negsuc 0) five_bytes five_bytes-IsValid (omega arith)

fixed_round_trip_example : FixedRoundTrips 0x1234 five_bytes
fixed_round_trip_example = fixed_round_trip 0x1234 five_bytes five_bytes-IsValid

string_round_trip_example : StringRoundTrips (104 ∷ 105 ∷ []) five_bytes
string_round_trip_example =
    string_round_trip (104 ∷ 105 ∷ []) five_bytes five_bytes-IsValid (omega arith) (omega arith)
