-- ===== src/Stream/Examples.antt =====
-- Runs on buffers of a few bytes.
use sylar.Common.{◌≡◌, refl, arith, [], ◌∷◌}
use sylar.Common.Outcome.{ok, fault, stuck}
use sylar.Stream.{received, failed, sent, read_fix_size, write_fix_size}
use sylar.Stream.Reading.{read_fix_size-join}

-- After a short write the next call starts at the first byte again.
sends_start_again :
    write_fix_size (sent 1 ∷ sent 2 ∷ []) (10 ∷ 20 ∷ 30 ∷ []) ≡ ok (10 ∷ 10 ∷ 20 ∷ [], [])
unfolding write_fix_size
sends_start_again = refl

-- An error does not end the loop: the next bytes would go in front of the buffer.
reads_on_after_error : read_fix_size (failed ∷ received (1 ∷ []) ∷ []) (0 ∷ 0 ∷ []) ≡ fault
unfolding read_fix_size
reads_on_after_error = refl

-- Nor does the end of the stream.
waits_when_closed : read_fix_size (received [] ∷ received [] ∷ []) (0 ∷ []) ≡ stuck
unfolding read_fix_size
waits_when_closed = refl

read_fix_size-join_example :
    read_fix_size (received (1 ∷ 2 ∷ []) ∷ received (3 ∷ []) ∷ failed ∷ []) (0 ∷ 0 ∷ 0 ∷ [])
    ≡ ok (1 ∷ 2 ∷ 3 ∷ [], failed ∷ [])
read_fix_size-join_example =
    read_fix_size-join ((1 ∷ 2 ∷ []) ∷ (3 ∷ []) ∷ []) (failed ∷ []) (0 ∷ 0 ∷ 0 ∷ [])
      (omega arith, (omega arith, tt)) refl (omega arith)
