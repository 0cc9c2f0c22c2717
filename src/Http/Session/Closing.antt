-- ===== src/Http/Session/Closing.antt =====
-- recvRequest returns null when, and only when, it has closed the connection.
use sylar.Common.{
  ℕ, zero, suc, ◌-◌, ◌^◌, ◌≡◌, ◌↔◌, refl, inl, inr, true, false, ◌||◌, Option, none, some, List,
  ◌++◌, take, replicate, ltb, leb, ◌==◌, Bool-cases,
}
use sylar.Common.Text.{Text}
use sylar.Common.Outcome.{Outcome, ok, OnOk, OnOk-bind}
use sylar.Stream.{Reply, read_fix_size}
use sylar.Http.Request.{HttpRequest}
use sylar.Http.Parser.{RequestEvent, Grammar, get_content_length}
use sylar.Http.Session.{
  Reading, Received, after_rest, recv_rest, recv_loop, start_reading, recv_body, recv_request,
  after_loop, int_le_zero,
}

abbrev ToldByNull : Received → Type 0
ToldByNull x = (x.request ≡ none) ↔ (x.closed ≡ true)

abbrev AllTold : Outcome Received → Type 0
AllTold = OnOk ToldByNull

told_null :
    (replies : List Reply)
    → ToldByNull (record { request = none; closed = true; replies = replies })
told_null replies = (λ e. refl, λ e. refl)

told_request :
    (q : HttpRequest) (replies : List Reply)
    → ToldByNull (record { request = some q; closed = false; replies = replies })
told_request q replies = (λ e. cc, λ e. cc)

module _ (g : Grammar RequestEvent) where
  after_rest-AllTold :
      (offset left : ℕ) (r : Reading g) (rest : List ℕ) (replies : List Reply)
      → AllTold (after_rest g offset left r (rest, replies))
  unfolding after_rest
  after_rest-AllTold offset left r rest replies = elim (Bool-cases (int_le_zero left)) [
    | inl e ↦ rw e (told_null replies)
    | inr e ↦
        rw e
          (told_request (record r.parser.request { body = take offset r.buffer ++ rest }) replies)
  ]

  recv_rest-AllTold :
      (replies : List Reply) (offset left : ℕ) (r : Reading g)
      → AllTold (recv_rest g replies offset left r)
  unfolding recv_rest
  recv_rest-AllTold replies offset zero r =
      told_request (record r.parser.request { body = take offset r.buffer }) replies
  recv_rest-AllTold replies offset (suc left) r =
      OnOk-bind ToldByNull (read_fix_size replies (replicate (suc left) 0))
        (after_rest g offset (suc left) r)
        λ (rest, later). after_rest-AllTold offset (suc left) r rest later

  recv_body-AllTold :
      (memory size : ℕ) (replies : List Reply) (r : Reading g)
      → AllTold (recv_body g memory size replies r)
  unfolding recv_body
  recv_body-AllTold memory size replies r = elim (Bool-cases ((size == 0) || leb (2 ^ 63) size)) [
    | inl e ↦ rw e (told_request r.parser.request replies)
    | inr e ↦ rw e (elim (Bool-cases (ltb memory size)) [
      | inl f ↦ rw f tt
      | inr f ↦ rw f (elim (Bool-cases (leb r.offset size)) [
        | inl h ↦ rw h (recv_rest-AllTold replies r.offset (size - r.offset) r)
        | inr h ↦
            rw h (told_request (record r.parser.request { body = take size r.buffer }) replies)
      ])
    ])
  ]

  after_loop-AllTold :
      (lexical_cast : Text → Option ℕ) (memory : ℕ) (head : Option (Reading g))
      (replies : List Reply)
      → AllTold (after_loop g lexical_cast memory (head, replies))
  unfolding after_loop
  after_loop-AllTold lexical_cast memory none replies = told_null replies
  after_loop-AllTold lexical_cast memory (some r) replies =
      recv_body-AllTold memory (get_content_length lexical_cast r.parser) replies r

  -- Whenever `recv_request` returns, for any parser, buffer size and answers of the stream, it returns null exactly
  -- when it has closed the connection.
  pub recv_request-closed :
      (lexical_cast : Text → Option ℕ) (memory buff_size : ℕ) (replies : List Reply) {x : Received}
      → recv_request g lexical_cast memory buff_size replies ≡ ok x
      → (x.request ≡ none) ↔ (x.closed ≡ true)
  unfolding recv_request
  recv_request-closed lexical_cast memory buff_size replies {x} e =
      let told : AllTold (recv_request g lexical_cast memory buff_size replies) =
        OnOk-bind ToldByNull (recv_loop g buff_size replies (start_reading g buff_size))
          (after_loop g lexical_cast memory)
          λ (head, later). after_loop-AllTold lexical_cast memory head later in
      rw e at told
