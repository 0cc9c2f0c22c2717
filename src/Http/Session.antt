-- ===== src/Http/Session.antt =====
-- sylar/http/http_session.cpp: recvRequest, which reads from the stream into a buffer until the parser is
-- finished, and then the body; and sendResponse. The answers of read are a list: a run that needs more of
-- them is `stuck`.
pub mod Rounds
pub mod Ending
pub mod Body
pub mod Closing
mod Examples
use sylar.Common.{
  ℕ, zero, suc, ◌+◌, ◌-◌, ◌%◌, ◌^◌, Bool, true, false, ◌||◌, Option, none, some, List, [], ◌∷◌,
  ◌++◌, length, take, replicate, ltb, leb, ◌==◌, if◌then◌else◌, sub_u64,
}
use sylar.Common.Text.{Text}
use sylar.Common.Memory.{overwrite}
use sylar.Common.Outcome.{Outcome, ok, thrown, fault, stuck, ◌>>=◌}
use sylar.Stream.{Reply, received, failed, Sent, read_fix_size, write_fix_size}
use sylar.Http.Request.{HttpRequest, HttpResponse, dump_response}
use sylar.Http.Parser.{
  RequestEvent, Grammar, HttpRequestParser, new_request_parser, get_content_length, execute,
  has_error, is_finished,
}

-- The value of a size in an int, as a test: `v <= 0`.
abbrev pub int_le_zero : ℕ → Bool
int_le_zero n = (n % 2 ^ 32 == 0) || leb (2 ^ 31) (n % 2 ^ 32)

-- What recvRequest returns, null or a request, whether it closed the connection, and the answers not used.
pub record Received : Type 0 where
  pub request : Option HttpRequest
  pub closed : Bool
  pub replies : List Reply

abbrev pub close_and_null : List Reply → Received
close_and_null replies = record { request = none; closed = true; replies = replies }

module _ (g : Grammar RequestEvent) where
  -- The variables of the loop.
  pub record Reading : Type 0 where
    pub parser : HttpRequestParser g.State
    pub buffer : List ℕ
    pub offset : ℕ

  -- How a round of the loop ends.
  pub data Round : Type 0 where
    again : Reading → Round
    head_done : Reading → Round
    closes : Round

  unfoldable pub after_execute :
      (buff_size len : ℕ) → HttpRequestParser g.State → List ℕ → ℕ → Round
  unfolding has_error is_finished
  after_execute buff_size len parser buffer nparse =
      let next : Reading = record {
        parser = parser;
        buffer = buffer;
        offset = sub_u64 len nparse % 2 ^ 32;
      } in
      if has_error g parser
      then closes
      else (if next.offset == buff_size % 2 ^ 32
          then closes
          else (if is_finished g parser then head_done next else again next))

  -- A round on the bytes that read stored behind the offset.
  unfoldable pub recv_round : (buff_size : ℕ) → List ℕ → Reading → Outcome Round
  unfolding execute after_execute
  recv_round buff_size bytes r =
      if leb (r.offset + length bytes) (length r.buffer)
      then (if int_le_zero (length bytes)
          then ok closes
          else (if leb (2 ^ 31) (r.offset + length bytes % 2 ^ 32)
              then fault
              else (execute g (overwrite r.buffer r.offset bytes) (r.offset + length bytes % 2 ^ 32)
                    r.parser
                  >>= λ (p, buffer, nparse). ok (
                      after_execute buff_size (r.offset + length bytes % 2 ^ 32) p buffer nparse))))
      else fault

  -- What follows a round; `later` is the rest of the loop.
  abbrev pub after_round :
      (Reading → Outcome (Option Reading × List Reply))
      → List Reply
      → Round
      → Outcome (Option Reading × List Reply)
  after_round later replies (again r) = later r
  after_round later replies (head_done r) = ok (some r, replies)
  after_round later replies closes = ok (none, replies)

  -- The loop: nothing when it closed the connection.
  unfoldable pub recv_loop :
      (buff_size : ℕ) → List Reply → Reading → Outcome (Option Reading × List Reply)
  recv_loop buff_size [] r = stuck
  recv_loop buff_size (failed ∷ replies) r = ok (none, replies)
  recv_loop buff_size (received bytes ∷ replies) r =
      let later = λ (next : Reading). recv_loop buff_size replies next in
      recv_round buff_size bytes r >>= after_round later replies

  abbrev set_body : Text → Reading → Option HttpRequest
  set_body body r = some (record r.parser.request { body = body })

  -- Behind readFixSize, which returns the size as an int: setBody.
  unfoldable pub after_rest : (offset left : ℕ) → Reading → List ℕ × List Reply → Outcome Received
  after_rest offset left r (rest, replies) =
      if int_le_zero left
      then ok (close_and_null replies)
      else ok (record {
        request = set_body (take offset r.buffer ++ rest) r;
        closed = false;
        replies = replies;
      })

  -- readFixSize into the rest of the body, when some of it is missing.
  unfoldable pub recv_rest : List Reply → (offset left : ℕ) → Reading → Outcome Received
  unfolding read_fix_size after_rest
  recv_rest replies offset zero r =
      ok (record { request = set_body (take offset r.buffer) r; closed = false; replies = replies })
  recv_rest replies offset (suc left) r =
      read_fix_size replies (replicate (suc left) 0) >>= after_rest offset (suc left) r

  -- The body, of a length that is read as an int64_t; `memory` is the longest string that resize can make.
  unfoldable pub recv_body : (memory : ℕ) → (length : ℕ) → List Reply → Reading → Outcome Received
  unfolding recv_rest
  recv_body memory length replies r =
      if (length == 0) || leb (2 ^ 63) length
      then ok (record { request = some r.parser.request; closed = false; replies = replies })
      else (if ltb memory length
          then thrown
          else (if leb r.offset length
              then recv_rest replies r.offset (length - r.offset) r
              else ok (record {
                request = set_body (take length r.buffer) r;
                closed = false;
                replies = replies;
              })))

  abbrev pub start_reading : ℕ → Reading
  start_reading buff_size = record {
    parser = new_request_parser g.init;
    buffer = replicate buff_size 0;
    offset = 0;
  }

  unfoldable pub after_loop :
      (Text → Option ℕ) → (memory : ℕ) → Option Reading × List Reply → Outcome Received
  unfolding recv_body get_content_length
  after_loop lexical_cast memory (none, replies) = ok (close_and_null replies)
  after_loop lexical_cast memory (some r, replies) =
      recv_body memory (get_content_length lexical_cast r.parser) replies r

  unfoldable pub recv_request :
      (Text → Option ℕ) → (memory buff_size : ℕ) → List Reply → Outcome Received
  unfolding recv_loop after_loop new_request_parser
  recv_request lexical_cast memory buff_size replies =
      recv_loop buff_size replies (start_reading buff_size) >>= after_loop lexical_cast memory

-- writeFixSize of the printed response.
unfoldable pub send_response : List Sent → HttpResponse → Outcome (List ℕ × List Sent)
unfolding write_fix_size dump_response
send_response replies rsp = write_fix_size replies (dump_response rsp)
