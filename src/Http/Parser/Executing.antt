-- ===== src/Http/Parser/Executing.antt =====
-- HttpRequestParser::execute stays inside the buffer and moves what it did not parse to the front.
use sylar.Common.{
  ℕ, ◌-◌, ◌≤◌, ◌≡◌, refl, sym, ap, ◌∙◌, arith, true, List, length, length-take, take, leb,
}
use sylar.Common.Memory.{overwrite, slice, length-overwrite, length-slice, slice-overwrite}
use sylar.Common.Outcome.{ok}
use sylar.Http.Parser.{RequestGrammar, HttpRequestParser, execute, move_rest, on_requests}

pub move_rest_lem :
    (buffer : List ℕ) (offset len : ℕ)
    → offset ≤ len
    → len ≤ length buffer
    → move_rest buffer offset len ≡ ok (overwrite buffer 0 (slice buffer offset (len - offset)))
unfolding move_rest
move_rest_lem buffer offset len before inside =
    let first : leb offset len ≡ true = ground (arith, before) in
    let second : leb len (length buffer) ≡ true = ground (arith, inside) in rw (first, second) refl

module _ (g : RequestGrammar) where
  pub taken-le_len :
      (buffer : List ℕ) (len : ℕ) (s : g.grammar.State)
      → (g.grammar.execute (take len buffer) s).1 ≤ len
  taken-le_len buffer len s = omega (arith, g.taken-le (take len buffer) s, length-take len buffer)

  -- `execute` on `len` bytes that lie inside the buffer takes at most those, keeps the length of the buffer, and
  -- leaves at its front exactly the bytes that it did not take, in their order.
  pub execute-rest :
      (buffer : List ℕ) (len : ℕ) (p : HttpRequestParser g.grammar.State)
      → len ≤ length buffer
      → (next : HttpRequestParser g.grammar.State) × (after : List ℕ) × (nparse : ℕ) × (execute
            g.grammar buffer len p
          ≡ ok (next, after, nparse))
        × (nparse ≤ len)
        × (length after ≡ length buffer)
        × (slice after 0 (len - nparse) ≡ slice buffer nparse (len - nparse))
  unfolding execute
  execute-rest buffer len p inside =
      let run = g.grammar.execute (take len buffer) p.parser in
      let bound = taken-le_len buffer len p.parser in
      let kept = slice buffer run.1 (len - run.1) in
      let size : length kept ≡ len - run.1 =
        length-slice buffer run.1 (len - run.1) (omega arith) in
      (
        on_requests run.2 (record p { parser = run.0 }),
        overwrite buffer 0 kept,
        run.1,
        rw (move_rest_lem buffer run.1 len bound inside) refl,
        bound,
        length-overwrite buffer 0 kept,
        ap (λ (n : ℕ). slice (overwrite buffer 0 kept) 0 n) (sym size)
            ∙ slice-overwrite buffer 0 kept (omega arith),
      )
