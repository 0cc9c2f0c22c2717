-- ===== src/Http/Session/Examples.antt =====
-- recvRequest on a grammar of one line, which announces three bytes of body.
use sylar.Common.{
  ℕ, suc, ◌≤◌, ◌-◌, ◌≡◌, ◌↔◌, refl, arith, inl, inr, Bool, true, false, Option, none, some, List,
  [], ◌∷◌, length, if◌then◌else◌, ◌==◌, Bool-cases,
}
use sylar.Common.Text.{Text, codes}
use sylar.Common.Memory.{slice}
use sylar.Common.Outcome.{Outcome, ok, thrown}
use sylar.Stream.{Reply, received, failed}
use sylar.Http.Parser.{http_field, RequestGrammar, HttpRequestParser, new_request_parser, execute}
use sylar.Http.Parser.Responses.{atoi}
use sylar.Http.Parser.Executing.{execute-rest}
use sylar.Http.Session.{
  Reading, Received, start_reading, recv_round, recv_loop, recv_body, recv_request, close_and_null,
}
use sylar.Http.Session.Ending.{EndsInside, recv_loop-EndsInside, recv_loop-ends}
use sylar.Http.Session.Body.{recv_body-take}
use sylar.Http.Session.Closing.{recv_request-closed}

abbrev has_line : List ℕ → Bool
has_line [] = false
has_line (c ∷ cs) = if c == 10 then true else has_line cs

-- The bytes up to the first end of line, with it.
abbrev line_size : List ℕ → ℕ
line_size [] = 0
line_size (c ∷ cs) = suc (if c == 10 then 0 else line_size cs)

line_size-le : (bytes : List ℕ) → line_size bytes ≤ length bytes
line_size-le [] = omega arith
line_size-le (c ∷ cs) = elim (Bool-cases (c == 10)) [
  | inl e ↦ rw e (omega arith)
  | inr e ↦ rw e (omega (arith, line_size-le cs))
]

abbrev line_grammar : RequestGrammar
line_grammar = record {
  grammar = record {
    State = Bool;
    init = false;
    execute = λ bytes s.
        (has_line bytes, line_size bytes, http_field (codes "content-length") (codes "3") ∷ []);
    has_error = λ s. false;
    is_finished = λ s. s;
  };
  taken-le = λ bytes s. line_size-le bytes;
}

abbrev to_number : Text → Option ℕ
to_number t = some (atoi 0 t)

abbrev body_of : Outcome Received → Option Text
body_of (ok x) = elim x.request [ none ↦ none | some q ↦ some q.body ]
body_of _ = none

two_reads :
    body_of (
      recv_request line_grammar.grammar to_number 10 8
        (received (codes "GO\na") ∷ received (codes "b") ∷ received (codes "c") ∷ []))
    ≡ some (codes "abc")
unfolding recv_request new_request_parser atoi recv_round
two_reads = refl

-- The length that a client announces is allocated whatever it is.
too_long : recv_request line_grammar.grammar to_number 2 8 (received (codes "GO\na") ∷ []) ≡ thrown
unfolding recv_request new_request_parser atoi recv_round
too_long = refl

peer_fails :
    recv_request line_grammar.grammar to_number 10 2 (received (codes "GO") ∷ failed ∷ [])
    ≡ ok (close_and_null [])
unfolding recv_request new_request_parser recv_round
peer_fails = refl

abbrev started : Reading line_grammar.grammar
started = start_reading line_grammar.grammar 8

abbrev half_read : Reading line_grammar.grammar
half_read = record { parser = new_request_parser true; buffer = codes "aGO......"; offset = 1 }

execute-rest_example :
    (next : HttpRequestParser Bool) × (after : List ℕ) × (nparse : ℕ) × (execute
        line_grammar.grammar
        (codes "GO\na....")
        4
        (new_request_parser false)
      ≡ ok (next, after, nparse))
    × (nparse ≤ 4)
    × (length after ≡ 8)
    × (slice after 0 (4 - nparse) ≡ slice (codes "GO\na....") nparse (4 - nparse))
execute-rest_example =
    execute-rest line_grammar (codes "GO\na....") 4 (new_request_parser false) (omega arith)

recv_loop-EndsInside_example :
    EndsInside line_grammar 8
      (omega arith)
      (recv_loop line_grammar.grammar 8 (received (codes "GO\na") ∷ []) started)
unfolding recv_round new_request_parser
recv_loop-EndsInside_example =
    recv_loop-EndsInside line_grammar 8 (omega arith) (received (codes "GO\na") ∷ []) started
      (refl, omega arith) (omega arith, tt)

recv_loop-ends_example :
    (result : Option (Reading line_grammar.grammar) × List Reply) × (recv_loop line_grammar.grammar
        8
        (received (codes "GO") ∷ received [] ∷ [])
        started
      ≡ ok result)
unfolding recv_round new_request_parser
recv_loop-ends_example =
    recv_loop-ends line_grammar 8 (omega arith) (received (codes "GO") ∷ received [] ∷ []) started
      (refl, omega arith) (omega arith, (omega arith, tt)) tt

recv_body-take_example :
    recv_body line_grammar.grammar 10 3
      (received (codes "b") ∷ received (codes "c") ∷ failed ∷ [])
      half_read
    ≡ ok (record {
      request = some (record half_read.parser.request { body = codes "abc" });
      closed = false;
      replies = failed ∷ [];
    })
recv_body-take_example =
    recv_body-take line_grammar.grammar 10 3 (codes "b" ∷ codes "c" ∷ []) (failed ∷ []) half_read
      (omega arith) (omega arith) (omega arith) (omega arith) (omega arith, (omega arith, tt)) refl

recv_request-closed_example :
    ((close_and_null []).request ≡ none) ↔ ((close_and_null []).closed ≡ true)
recv_request-closed_example =
    recv_request-closed line_grammar.grammar to_number 10 2 (received (codes "GO") ∷ failed ∷ [])
      peer_fails
