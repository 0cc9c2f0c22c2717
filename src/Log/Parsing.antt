-- ===== src/Log/Parsing.antt =====
-- Parsing a pattern ends.
use sylar.Common.{
  ℕ, zero, suc, ◌≤◌, ◌<◌, ◌≡◌, refl, arith, inl, inr, true, false, ◌||◌, [], ◌∷◌, ◌++◌, length,
  ◌==◌, Bool-cases,
}
use sylar.Common.Text.{Text, codes}
use sylar.Common.Outcome.{ok}
use sylar.Log.Pattern.{
  plain, format, goes_on, scan_format, scan_name, flush, doubled, Pieces, add_pieces, init_loop,
  LogFormatter, new_formatter, make_items,
}

scan_format-le : (str fmt t : Text) → length (scan_format str fmt t).rest ≤ length t
unfolding scan_format
scan_format-le str fmt [] = omega arith
scan_format-le str fmt (c ∷ t) = elim (Bool-cases (c == 125)) [
  | inl e ↦ rw e (omega arith)
  | inr e ↦ rw e (omega (arith, scan_format-le str (fmt ++ (c ∷ [])) t))
]

scan_name-le : (str t : Text) → length (scan_name str t).rest ≤ length t
unfolding scan_name
scan_name-le str [] = omega arith
scan_name-le str (c ∷ t) = elim (Bool-cases (goes_on c)) [
  | inr e ↦ rw e (omega arith)
  | inl e ↦ rw e (elim (Bool-cases (c == 123)) [
    | inl f ↦ rw f (omega (arith, scan_format-le str [] t))
    | inr f ↦ rw f (omega (arith, scan_name-le (str ++ (c ∷ [])) t))
  ])
]

init_loop-ends :
    (fuel : ℕ) (nstr t : Text) → length t < fuel → (r : Pieces) × (init_loop fuel nstr t ≡ ok r)
unfolding init_loop
init_loop-ends zero nstr t h = absurd (omega arith)
init_loop-ends (suc fuel) nstr [] h = (record { pieces = flush nstr; error = false }, refl)
init_loop-ends (suc fuel) nstr (c ∷ t) h =
    let (r0, e0) = init_loop-ends fuel (nstr ++ (c ∷ [])) t (omega arith) in
    let (r1, e1) =
      init_loop-ends fuel [] (scan_name [] t).rest (omega (arith, scan_name-le [] t)) in
    let (r2, e2) = init_loop-ends fuel nstr t (omega arith) in
    elim (Bool-cases (c == 37)) [
      | inr e ↦ rw e (rw e0 (r0, refl))
      | inl e ↦ rw e (elim (Bool-cases (doubled t)) [
        | inl f ↦ rw f (rw e0 (r0, refl))
        | inr f ↦ rw f (elim (Bool-cases (scan_name [] t).closed) [
          | inl g ↦
              rw (g, e1)
                (
                  add_pieces (flush nstr ++ (format (scan_name [] t).str (scan_name [] t).fmt ∷ []))
                      false r1,
                  refl,
                )
          | inr g ↦ rw (g, e2) (add_pieces (plain (codes "<<pattern_error>>") ∷ []) true r2, refl)
        ])
      ])
    ]

-- LogFormatter's constructor ends on every pattern, with a formatter for that pattern: no character makes a loop of
-- init go on without end.
pub new_formatter-ends :
    (pattern : Text) → (f : LogFormatter) × (new_formatter pattern ≡ ok f) × (f.pattern ≡ pattern)
unfolding new_formatter
new_formatter-ends pattern =
    let (r, e) = init_loop-ends (suc (length pattern)) [] pattern (omega arith) in
    rw e (
      record {
        pattern = pattern;
        items = (make_items r.pieces).0;
        is_error = r.error || (make_items r.pieces).1;
      },
      refl,
      refl,
    )
