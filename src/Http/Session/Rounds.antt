-- ===== src/Http/Session/Rounds.antt =====
-- Every round of recvRequest stays inside its buffer and leaves room for the next read.
use sylar.Common.{
  ℕ, ◌+◌, ◌-◌, ◌%◌, ◌^◌, ◌≤◌, ◌<◌, ◌≡◌, refl, ◌∙◌, arith, inl, inr, true, false, List, [], ◌∷◌,
  length, leb, ◌==◌, sub_u64, Bool-cases,
}
use sylar.Common.Memory.{overwrite, length-overwrite}
use sylar.Common.Outcome.{Outcome, ok, thrown, aborted, fault, stuck}
use sylar.Stream.{Reply, received, failed}
use sylar.Http.Parser.{RequestGrammar, HttpRequestParser, has_error, is_finished}
use sylar.Http.Parser.Executing.{execute-rest}
use sylar.Http.Session.{
  Reading, Round, again, head_done, closes, after_execute, recv_round, int_le_zero,
}

module _ (g : RequestGrammar) (buff_size : ℕ) (small : buff_size < 2 ^ 31) where
  -- The buffer has its length, and there is room for a read.
  abbrev pub IsReading : Reading g.grammar → Type 0
  IsReading r = (length r.buffer ≡ buff_size) × (r.offset < buff_size)

  abbrev pub LeavesRoom : Round g.grammar → Type 0
  LeavesRoom (again r) = IsReading r
  LeavesRoom (head_done r) = IsReading r
  LeavesRoom closes = Unit

  after_execute-LeavesRoom :
      (len : ℕ) (p : HttpRequestParser g.grammar.State) (buffer : List ℕ) (nparse : ℕ)
      → len ≤ buff_size
      → nparse ≤ len
      → length buffer ≡ buff_size
      → LeavesRoom (after_execute g.grammar buff_size len p buffer nparse)
  unfolding after_execute
  after_execute-LeavesRoom len p buffer nparse inside taken size =
      let offset = sub_u64 len nparse % 2 ^ 32 in
      let below : offset ≤ buff_size = ground (arith, inside, taken) in
      let whole : buff_size % 2 ^ 32 ≡ buff_size = omega arith in
      elim (Bool-cases (has_error g.grammar p)) [
        | inl e ↦ rw e tt
        | inr e ↦
            rw (e, whole)
              (elim (Bool-cases (offset == buff_size)) [
                | inl f ↦ rw f tt
                | inr f ↦
                    let room : offset < buff_size = ground (arith, below, f) in
                    rw f (elim (Bool-cases (is_finished g.grammar p)) [
                      | inl h ↦ rw h (size, room)
                      | inr h ↦ rw h (size, room)
                    ])
              ])
      ]

  -- A round on a read of at most the bytes that it asked for, the size of the buffer less the offset, ends well:
  -- no access leaves the buffer, and the loop goes on, or leaves for the body, with the buffer's length unchanged and
  -- an offset below it, so that the next read asks for at least one byte. The buffer is below 2^31 bytes.
  pub recv_round-LeavesRoom :
      (bytes : List ℕ) (r : Reading g.grammar)
      → IsReading r
      → length bytes ≤ buff_size - r.offset
      → (round : Round g.grammar) × (recv_round g.grammar buff_size bytes r ≡ ok round)
        × LeavesRoom round
  unfolding recv_round
  recv_round-LeavesRoom bytes r (size, room) fits =
      let len = r.offset + length bytes % 2 ^ 32 in
      let whole : length bytes % 2 ^ 32 ≡ length bytes = omega arith in
      let inside : leb (r.offset + length bytes) (length r.buffer) ≡ true =
        ground (arith, size, room, fits) in
      let no_overflow : leb (2 ^ 31) len ≡ false = ground (arith, whole, room, fits, small) in
      let filled = overwrite r.buffer r.offset bytes in
      let same : length filled ≡ buff_size = length-overwrite r.buffer r.offset bytes ∙ size in
      let (p, after, nparse, e, taken, kept, rest) =
        execute-rest g filled len r.parser (omega arith) in
      rw inside (elim (Bool-cases (int_le_zero (length bytes))) [
        | inl f ↦ rw f (closes, refl, tt)
        | inr f ↦
            rw (f, no_overflow, e)
              (
                after_execute g.grammar buff_size len p after nparse,
                refl,
                after_execute-LeavesRoom len p after nparse (omega arith) taken (kept ∙ same),
              )
      ])

  -- What the next rounds need, when there are any.
  abbrev pub GoesOn : (Reading g.grammar → Type 0) → Outcome (Round g.grammar) → Type 0
  GoesOn P (ok (again next)) = P next
  GoesOn P (ok (head_done next)) = Unit
  GoesOn P (ok closes) = Unit
  GoesOn P thrown = Unit
  GoesOn P aborted = Unit
  GoesOn P fault = Unit
  GoesOn P stuck = Unit

  -- Each read stores at most what it was asked for, in every round that the loop comes to.
  abbrev pub InRoom : List Reply → Reading g.grammar → Type 0
  InRoom [] r = Unit
  InRoom (failed ∷ replies) r = Unit
  InRoom (received bytes ∷ replies) r =
      (length bytes ≤ buff_size - r.offset)
      × GoesOn (λ next. InRoom replies next) (recv_round g.grammar buff_size bytes r)
