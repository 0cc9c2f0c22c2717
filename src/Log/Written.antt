-- ===== src/Log/Written.antt =====
-- Parsing a pattern reads back what the pattern was written from.
use sylar.Common.{
  ℕ, zero, suc, ◌<◌, ◌≡◌, refl, sym, ap, ◌∙◌, arith, Bool, true, false, not, ◌&&◌, Option, none,
  some, List, [], ◌∷◌, ◌++◌, length, length-append, ◌==◌,
}
use mathlib.Core.List.{append-nil, append_assoc}
use sylar.Common.Text.{Text}
use sylar.Common.Outcome.{Outcome, ok}
use sylar.Log.Pattern.{
  Piece, format, goes_on, scan_format, scan_name, flush, doubled, Pieces, init_loop, new_formatter,
  make_items,
}

-- A text, and behind it %name or %name{fmt}.
pub record Part : Type 0 where
  pub before : Text
  pub name : Text
  pub fmt : Option Text

abbrev braces : Option Text → Text
braces none = []
braces (some fmt) = 123 ∷ (fmt ++ (125 ∷ []))

-- The pattern of the parts and a last text.
abbrev pub show : List Part → Text → Text
show [] last = last
show (p ∷ ps) last = p.before ++ (37 ∷ (p.name ++ (braces p.fmt ++ show ps last)))

abbrev pub format_of : Option Text → Text
format_of none = []
format_of (some fmt) = fmt

abbrev pub pieces_of : List Part → Text → List Piece
pieces_of [] last = flush last
pieces_of (p ∷ ps) last = flush p.before ++ (format p.name (format_of p.fmt) ∷ pieces_of ps last)

abbrev pub all_chars : (ℕ → Bool) → Text → Bool
all_chars test [] = true
all_chars test (c ∷ t) = test c && all_chars test t

abbrev not_percent : ℕ → Bool
not_percent c = not (c == 37)

abbrev not_brace : ℕ → Bool
not_brace c = not (c == 125)

abbrev in_name : ℕ → Bool
in_name c = goes_on c && not (c == 123) && not (c == 37)

abbrev ends_name : Text → Bool
ends_name [] = true
ends_name (c ∷ t) = not (goes_on c)

-- A name without braces has a character and ends at one that is no letter or brace.
abbrev FmtFits : Text → Option Text → Text → Type 0
FmtFits name (some fmt) rest = all_chars not_brace fmt ≡ true
FmtFits name none rest = (0 < length name) × (ends_name rest ≡ true)

abbrev pub WellWritten : List Part → Text → Type 0
WellWritten [] last = all_chars not_percent last ≡ true
WellWritten (p ∷ ps) last =
    (all_chars not_percent p.before ≡ true)
    × (all_chars in_name p.name ≡ true)
    × FmtFits p.name p.fmt (show ps last)
    × WellWritten ps last

chars_head :
    (test : ℕ → Bool) (c : ℕ) (t : Text)
    → all_chars test (c ∷ t) ≡ true
    → (test c ≡ true) × (all_chars test t ≡ true)
chars_head test c t e = ground (arith, e)

scan_name-append :
    (str name t : Text)
    → all_chars in_name name ≡ true
    → scan_name str (name ++ t) ≡ scan_name (str ++ name) t
unfolding scan_name
scan_name-append str [] t h = ap (λ s. scan_name s t) (sym (append-nil str))
scan_name-append str (c ∷ name) t h =
    let (here, later) = chars_head in_name c name h in
    let letter : goes_on c ≡ true = ground (arith, here) in
    let no_open : (c == 123) ≡ false = ground (arith, here) in
    rw (letter, no_open)
      (scan_name-append (str ++ (c ∷ [])) name t later
        ∙ ap (λ s. scan_name s t) (append_assoc str (c ∷ []) name))

scan_format-append :
    (str acc fmt t : Text)
    → all_chars not_brace fmt ≡ true
    → scan_format str acc (fmt ++ (125 ∷ t))
      ≡ record { str = str; fmt = acc ++ fmt; closed = true; rest = t }
unfolding scan_format
scan_format-append str acc [] t h = rw (append-nil acc) refl
scan_format-append str acc (c ∷ fmt) t h =
    let (here, later) = chars_head not_brace c fmt h in
    let no_close : (c == 125) ≡ false = ground (arith, here) in
    rw no_close (
      scan_format-append str (acc ++ (c ∷ [])) fmt t later
      ∙ ap (λ f. record { str = str; fmt = f; closed = true; rest = t })
          (append_assoc acc (c ∷ []) fmt))

scan_part :
    (name : Text) (fmt : Option Text) (rest : Text)
    → all_chars in_name name ≡ true
    → FmtFits name fmt rest
    → scan_name [] (name ++ (braces fmt ++ rest))
      ≡ record { str = name; fmt = format_of fmt; closed = true; rest = rest }
unfolding scan_name
scan_part name (some fmt) rest letters fits =
    scan_name-append [] name (braces (some fmt) ++ rest) letters
    ∙ ap (λ t. scan_format name [] t) (append_assoc fmt (125 ∷ []) rest)
    ∙ scan_format-append name [] fmt rest fits
scan_part name none rest letters (filled, ends) =
    scan_name-append [] name rest letters ∙ stop rest ends
  where
    stop :
        (t : Text)
        → ends_name t ≡ true
        → scan_name name t ≡ record { str = name; fmt = []; closed = true; rest = t }
    stop [] h = refl
    stop (c ∷ t) h = let no_letter : goes_on c ≡ false = ground (arith, h) in rw no_letter refl

not_doubled :
    (name : Text) (fmt : Option Text) (rest : Text)
    → all_chars in_name name ≡ true
    → FmtFits name fmt rest
    → doubled (name ++ (braces fmt ++ rest)) ≡ false
not_doubled [] (some fmt) rest letters fits = refl
not_doubled [] none rest letters fits = absurd (omega (arith, fits.0))
not_doubled (c ∷ name) fmt rest letters fits =
    let (here, later) = chars_head in_name c name letters in ground (arith, here)

copy_text :
    (s nstr t : Text) (result : Outcome Pieces)
    → all_chars not_percent s ≡ true
    → ((fuel : ℕ) → length t < fuel → init_loop fuel (nstr ++ s) t ≡ result)
    → (fuel : ℕ) → length (s ++ t) < fuel
    → init_loop fuel nstr (s ++ t) ≡ result
unfolding init_loop
copy_text [] nstr t result no_mark next fuel h =
    ap (λ n. init_loop fuel n t) (sym (append-nil nstr)) ∙ next fuel h
copy_text (c ∷ s) nstr t result no_mark next zero h = absurd (omega arith)
copy_text (c ∷ s) nstr t result no_mark next (suc fuel) h =
    let (here, later) = chars_head not_percent c s no_mark in
    let other : (c == 37) ≡ false = ground (arith, here) in
    rw other (
      copy_text s (nstr ++ (c ∷ [])) t result later
        (λ k enough. ap (λ n. init_loop k n t) (append_assoc nstr (c ∷ []) s) ∙ next k enough) fuel
        (omega arith))

abbrev parsed : List Part → Text → Outcome Pieces
parsed ps last = ok (record { pieces = pieces_of ps last; error = false })

part_step :
    (p : Part) (ps : List Part) (last : Text)
    → all_chars in_name p.name ≡ true
    → FmtFits p.name p.fmt (show ps last)
    → ((fuel : ℕ)
        → length (show ps last) < fuel
        → init_loop fuel [] (show ps last) ≡ parsed ps last)
    → (fuel : ℕ) → length (37 ∷ (p.name ++ (braces p.fmt ++ show ps last))) < fuel
    → init_loop fuel p.before (37 ∷ (p.name ++ (braces p.fmt ++ show ps last)))
      ≡ parsed (p ∷ ps) last
unfolding init_loop
part_step p ps last letters fits next zero h = absurd (omega arith)
part_step p ps last letters fits next (suc fuel) h =
    let rest = show ps last in
    let size = length-append p.name (braces p.fmt ++ rest) in
    let inner = length-append (braces p.fmt) rest in
    let enough : length rest < fuel = omega (arith, size, inner) in
    let item = format p.name (format_of p.fmt) in
    rw
      (
        not_doubled p.name p.fmt rest letters fits,
        scan_part p.name p.fmt rest letters fits,
        next fuel enough,
      )
      (ap (λ l. ok (record { pieces = l; error = false }))
        (append_assoc (flush p.before) (item ∷ []) (pieces_of ps last)))

init_loop-show :
    (ps : List Part) (last : Text)
    → WellWritten ps last
    → (fuel : ℕ) → length (show ps last) < fuel
    → init_loop fuel [] (show ps last) ≡ parsed ps last
unfolding init_loop
init_loop-show [] last no_mark fuel h =
    ap (λ t. init_loop fuel [] t) (sym (append-nil last))
    ∙ copy_text last [] [] (parsed [] last) no_mark end fuel
        (omega (arith, ap length (append-nil last)))
  where
    end : (k : ℕ) → length {A = ℕ} [] < k → init_loop k last [] ≡ parsed [] last
    end zero enough = absurd (omega arith)
    end (suc k) enough = refl
init_loop-show (p ∷ ps) last (no_mark, letters, fits, later) fuel h =
    copy_text p.before [] (37 ∷ (p.name ++ (braces p.fmt ++ show ps last))) (parsed (p ∷ ps) last)
      no_mark (part_step p ps last letters fits (init_loop-show ps last later)) fuel h

-- The items of a pattern that was written from parts are those of its pieces.
pub new_formatter-pieces :
    (ps : List Part) (last : Text)
    → WellWritten ps last
    → new_formatter (show ps last)
      ≡ ok (record {
        pattern = show ps last;
        items = (make_items (pieces_of ps last)).0;
        is_error = (make_items (pieces_of ps last)).1;
      })
unfolding new_formatter
new_formatter-pieces ps last written =
    rw (init_loop-show ps last written (suc (length (show ps last))) (omega arith)) refl
