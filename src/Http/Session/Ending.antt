-- ===== src/Http/Session/Ending.antt =====
-- The loop of recvRequest: it leaves the buffer in no round, and ends when the peer does.
use sylar.Common.{
  ℕ, ◌+◌, ◌^◌, ◌<◌, ◌≡◌, refl, arith, true, leb, length, Option, none, some, List, [], ◌∷◌,
}
use sylar.Common.Outcome.{Outcome, ok, thrown, aborted, fault, stuck}
use sylar.Stream.{Reply, received, failed}
use sylar.Http.Parser.{RequestGrammar}
use sylar.Http.Session.{
  Reading, Round, again, head_done, closes, recv_round, recv_loop, after_round,
}
use sylar.Http.Session.Rounds.{IsReading, LeavesRoom, recv_round-LeavesRoom, InRoom, GoesOn}

-- The peer closes the connection, or it fails.
abbrev pub PeerEnds : List Reply → Type 0
PeerEnds [] = ⊥
PeerEnds (failed ∷ replies) = Unit
PeerEnds (received [] ∷ replies) = Unit
PeerEnds (received (b ∷ bs) ∷ replies) = PeerEnds replies

module _ (g : RequestGrammar) (buff_size : ℕ) (small : buff_size < 2 ^ 31) where
  abbrev pub EndsInside : Outcome (Option (Reading g.grammar) × List Reply) → Type 0
  EndsInside (ok (none, replies)) = Unit
  EndsInside (ok (some r, replies)) = IsReading g buff_size small r
  EndsInside stuck = Unit
  EndsInside thrown = ⊥
  EndsInside aborted = ⊥
  EndsInside fault = ⊥

  after_round-EndsInside :
      (P : Reading g.grammar → Type 0)
      (later : Reading g.grammar → Outcome (Option (Reading g.grammar) × List Reply))
      (replies : List Reply) (round : Round g.grammar)
      → LeavesRoom g buff_size small round
      → GoesOn g buff_size small P (ok round)
      → ((next : Reading g.grammar)
          → IsReading g buff_size small next
          → P next
          → EndsInside (later next))
      → EndsInside (after_round g.grammar later replies round)
  after_round-EndsInside P later replies (again next) room further rec = rec next room further
  after_round-EndsInside P later replies (head_done next) room further rec = room
  after_round-EndsInside P later replies closes room further rec = tt

  -- `recv_loop`, on reads that store at most what they are asked for, accesses nothing outside its buffer, for any
  -- number of rounds: it waits for more, has closed the connection, or leaves with the parsed head and a rest that is
  -- shorter than the buffer, which is below 2^31 bytes.
  pub recv_loop-EndsInside :
      (replies : List Reply) (r : Reading g.grammar)
      → IsReading g buff_size small r
      → InRoom g buff_size small replies r
      → EndsInside (recv_loop g.grammar buff_size replies r)
  unfolding recv_loop
  recv_loop-EndsInside [] r valid answers = tt
  recv_loop-EndsInside (failed ∷ replies) r valid answers = tt
  recv_loop-EndsInside (received bytes ∷ replies) r valid (fits, further) =
      let (round, e, room) = recv_round-LeavesRoom g buff_size small bytes r valid fits in
      rw e (
        after_round-EndsInside (λ next. InRoom g buff_size small replies next)
          (λ next. recv_loop g.grammar buff_size replies next) replies round room (rw e at further)
          (λ next ok_next answers. recv_loop-EndsInside replies next ok_next answers))

  after_round-ends :
      (P : Reading g.grammar → Type 0)
      (later : Reading g.grammar → Outcome (Option (Reading g.grammar) × List Reply))
      (replies : List Reply) (round : Round g.grammar)
      → LeavesRoom g buff_size small round
      → GoesOn g buff_size small P (ok round)
      → ((next : Reading g.grammar)
          → IsReading g buff_size small next
          → P next
          → (result : Option (Reading g.grammar) × List Reply) × (later next ≡ ok result))
      → (result : Option (Reading g.grammar) × List Reply) × (after_round g.grammar later replies
            round
          ≡ ok result)
  after_round-ends P later replies (again next) room further rec = rec next room further
  after_round-ends P later replies (head_done next) room further rec = ((some next, replies), refl)
  after_round-ends P later replies closes room further rec = ((none, replies), refl)

  closed_round :
      (r : Reading g.grammar)
      → IsReading g buff_size small r
      → recv_round g.grammar buff_size [] r ≡ ok closes
  unfolding recv_round
  closed_round r (size, room) =
      let inside : leb (r.offset + 0) (length r.buffer) ≡ true = ground (arith, size, room) in
      rw inside refl

  -- `recv_loop` comes to an end, with a head or with the connection closed, when the peer closes the connection
  -- or it fails after any number of reads that store at most what they are asked for, whatever the parser makes of them.
  pub recv_loop-ends :
      (replies : List Reply) (r : Reading g.grammar)
      → IsReading g buff_size small r
      → InRoom g buff_size small replies r
      → PeerEnds replies
      → (result : Option (Reading g.grammar) × List Reply) × (recv_loop g.grammar buff_size replies
            r
          ≡ ok result)
  unfolding recv_loop
  recv_loop-ends [] r valid answers ending = absurd ending
  recv_loop-ends (failed ∷ replies) r valid answers ending = ((none, replies), refl)
  recv_loop-ends (received [] ∷ replies) r valid answers ending =
      rw (closed_round r valid) ((none, replies), refl)
  recv_loop-ends (received (b ∷ bs) ∷ replies) r valid (fits, further) ending =
      let (round, e, room) = recv_round-LeavesRoom g buff_size small (b ∷ bs) r valid fits in
      rw e (
        after_round-ends (λ next. InRoom g buff_size small replies next)
          (λ next. recv_loop g.grammar buff_size replies next) replies round room (rw e at further)
          (λ next ok_next answers. recv_loop-ends replies next ok_next answers ending))
