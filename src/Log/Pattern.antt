-- ===== src/Log/Pattern.antt =====
-- LogFormatter::init of sylar/log.cpp: how a pattern becomes items. A place in the pattern is what follows it.
use sylar.Common.{
  ℕ, zero, suc, Bool, true, false, not, ◌&&◌, ◌||◌, Option, none, some, List, [], ◌∷◌, ◌++◌, length,
  leb, ◌==◌, if◌then◌else◌,
}
use sylar.Common.Text.{Text, codes, text_eq}
use sylar.Common.Outcome.{Outcome, ok, stuck, ◌>>=◌}
use sylar.Log.{
  FormatItem, message_item, level_item, elapse_item, name_item, thread_id_item, new_line_item,
  date_time_item, filename_item, line_item, tab_item, fiber_id_item, thread_name_item, string_item,
}

-- The entries of `vec`: type 0 with a text, type 1 with a name and a format.
pub data Piece : Type 0 where
  plain : Text → Piece
  format : Text → Text → Piece

-- isalpha of the C locale.
abbrev pub is_alpha : ℕ → Bool
is_alpha c = (leb 65 c && leb c 90) || (leb 97 c && leb c 122)

-- The characters that go on with a name: letters and braces.
abbrev pub goes_on : ℕ → Bool
goes_on c = is_alpha c || (c == 123) || (c == 125)

-- How the inner loop ends: `closed` is fmt_status == 0, `rest` what stands from n on.
pub record Scan : Type 0 where
  pub str : Text
  pub fmt : Text
  pub closed : Bool
  pub rest : Text

-- fmt_status 1: `fmt` are the characters behind the brace.
unfoldable pub scan_format : (str fmt : Text) → Text → Scan
scan_format str fmt [] = record { str = str; fmt = []; closed = false; rest = [] }
scan_format str fmt (c ∷ t) =
    let further = scan_format str (fmt ++ (c ∷ [])) t in
    if c == 125 then record { str = str; fmt = fmt; closed = true; rest = t } else further

-- fmt_status 0: `str` are the characters behind the %.
unfoldable pub scan_name : (str : Text) → Text → Scan
unfolding scan_format
scan_name str [] = record { str = str; fmt = []; closed = true; rest = [] }
scan_name str (c ∷ t) =
    let further = scan_name (str ++ (c ∷ [])) t in
    if not (goes_on c)
    then record { str = str; fmt = []; closed = true; rest = c ∷ t }
    else (if c == 123 then scan_format str [] t else further)

-- The text before, when there is one.
abbrev pub flush : Text → List Piece
flush [] = []
flush (c ∷ t) = plain (c ∷ t) ∷ []

abbrev pub doubled : Text → Bool
doubled [] = false
doubled (c ∷ t) = c == 37

-- The pieces behind `nstr`, the text before, and m_error.
pub record Pieces : Type 0 where
  pub pieces : List Piece
  pub error : Bool

abbrev pub add_pieces : List Piece → Bool → Pieces → Pieces
add_pieces ps error r = record { pieces = ps ++ r.pieces; error = error || r.error }

-- The outer loop. In front of a second % it goes on at that one; behind a brace that is not closed it goes on
-- behind the %.
unfoldable pub init_loop : (fuel : ℕ) → (nstr : Text) → Text → Outcome Pieces
unfolding scan_name
init_loop zero nstr t = stuck
init_loop (suc fuel) nstr [] = ok (record { pieces = flush nstr; error = false })
init_loop (suc fuel) nstr (c ∷ t) =
    let read = scan_name [] t in
    let copied = init_loop fuel (nstr ++ (c ∷ [])) t in
    let after_item = init_loop fuel [] read.rest in
    let after_error = init_loop fuel nstr t in
    if not (c == 37)
    then copied
    else (if doubled t
        then copied
        else (if read.closed
            then (after_item >>= λ r.
                ok (add_pieces (flush nstr ++ (format read.str read.fmt ∷ [])) false r))
            else (after_error >>= λ r.
                ok (add_pieces (plain (codes "<<pattern_error>>") ∷ []) true r))))

-- An empty format of a date stands for the default.
abbrev date_format : Text → Text
date_format [] = codes "%Y-%m-%d %H:%M:%S"
date_format (c ∷ t) = c ∷ t

-- s_format_items.
abbrev pub format_map : List (Text × (Text → FormatItem))
format_map =
    (codes "m", λ fmt. message_item)
    ∷ (codes "p", λ fmt. level_item)
    ∷ (codes "r", λ fmt. elapse_item)
    ∷ (codes "c", λ fmt. name_item)
    ∷ (codes "t", λ fmt. thread_id_item)
    ∷ (codes "n", λ fmt. new_line_item)
    ∷ (codes "d", λ fmt. date_time_item (date_format fmt))
    ∷ (codes "f", λ fmt. filename_item)
    ∷ (codes "l", λ fmt. line_item)
    ∷ (codes "T", λ fmt. tab_item)
    ∷ (codes "F", λ fmt. fiber_id_item)
    ∷ (codes "N", λ fmt. thread_name_item)
    ∷ []

unfoldable pub find_item : Text → Text → List (Text × (Text → FormatItem)) → Option FormatItem
find_item name fmt [] = none
find_item name fmt ((key, make) ∷ rest) =
    if text_eq key name then some (make fmt) else find_item name fmt rest

-- m_pattern, m_items and m_error.
pub record LogFormatter : Type 0 where
  pub pattern : Text
  pub items : List FormatItem
  pub is_error : Bool

abbrev pub item_of : Piece → FormatItem × Bool
item_of (plain s) = (string_item s, false)
item_of (format name fmt) = elim (find_item name fmt format_map) [
  | none ↦ (string_item (codes "<<error_format %" ++ (name ++ codes ">>")), true)
  | some i ↦ (i, false)
]

unfoldable pub make_items : List Piece → List FormatItem × Bool
unfolding find_item
make_items [] = ([], false)
make_items (p ∷ ps) =
    let (item, wrong) = item_of p in
    let (items, error) = make_items ps in (item ∷ items, wrong || error)

-- The constructor, which calls init.
unfoldable pub new_formatter : Text → Outcome LogFormatter
unfolding init_loop make_items
new_formatter pattern = init_loop (suc (length pattern)) [] pattern >>= λ r. ok (record {
  pattern = pattern;
  items = (make_items r.pieces).0;
  is_error = r.error || (make_items r.pieces).1;
})
