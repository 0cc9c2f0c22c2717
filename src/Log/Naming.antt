-- ===== src/Log/Naming.antt =====
-- The items of the parts, and which names are known.
use sylar.Common.{
  ℕ, ◌≡◌, refl, ap, ◌∙◌, inl, inr, Bool, true, false, ◌||◌, Option, none, some, List, [], ◌∷◌, ◌++◌,
  map, ◌==◌, if◌then◌else◌, Bool-cases,
}
use sylar.Common.Text.{Text, codes}
use sylar.Common.Outcome.{ok}
use sylar.Log.{
  FormatItem, message_item, level_item, elapse_item, name_item, thread_id_item, new_line_item,
  date_time_item, filename_item, line_item, tab_item, fiber_id_item, thread_name_item, string_item,
}
use sylar.Log.Pattern.{
  Piece, format, flush, find_item, format_map, item_of, make_items, new_formatter,
}
use sylar.Log.Written.{Part, show, format_of, pieces_of, WellWritten, new_formatter-pieces}

abbrev Make : Type 0
Make = Text → FormatItem

-- The letters that stand for an item.
abbrev letters : List (ℕ × Make)
letters =
    (109, λ fmt. message_item)
    ∷ (112, λ fmt. level_item)
    ∷ (114, λ fmt. elapse_item)
    ∷ (99, λ fmt. name_item)
    ∷ (116, λ fmt. thread_id_item)
    ∷ (110, λ fmt. new_line_item)
    ∷ (100, λ fmt. date_time_item (elim fmt [ [] ↦ codes "%Y-%m-%d %H:%M:%S" | ◌∷◌ c t ↦ c ∷ t ]))
    ∷ (102, λ fmt. filename_item)
    ∷ (108, λ fmt. line_item)
    ∷ (84, λ fmt. tab_item)
    ∷ (70, λ fmt. fiber_id_item)
    ∷ (78, λ fmt. thread_name_item)
    ∷ []

abbrev by_letter : ℕ → Text → List (ℕ × Make) → Option FormatItem
by_letter c fmt [] = none
by_letter c fmt ((key, make) ∷ rest) = if key == c then some (make fmt) else by_letter c fmt rest

-- The item of a name: only names of one letter have one.
abbrev pub item_named : Text → Text → Option FormatItem
item_named [] fmt = none
item_named (c ∷ []) fmt = by_letter c fmt letters
item_named (c ∷ (d ∷ t)) fmt = none

abbrev pub item_or_error : Text → Option FormatItem → FormatItem
item_or_error name none = string_item (codes "<<error_format %" ++ (name ++ codes ">>"))
item_or_error name (some item) = item

abbrev pub text_items : Text → List FormatItem
text_items [] = []
text_items (c ∷ t) = string_item (c ∷ t) ∷ []

abbrev pub items_of : List Part → Text → List FormatItem
items_of [] last = text_items last
items_of (p ∷ ps) last =
    text_items p.before
    ++ (item_or_error p.name (item_named p.name (format_of p.fmt)) ∷ items_of ps last)

abbrev pub is_unknown : Option FormatItem → Bool
is_unknown none = true
is_unknown (some item) = false

abbrev pub any_unknown : List Part → Bool
any_unknown [] = false
any_unknown (p ∷ ps) = is_unknown (item_named p.name (format_of p.fmt)) || any_unknown ps

abbrev keyed : ℕ × Make → Text × Make
keyed (key, make) = (key ∷ [], make)

letters-format_map : format_map ≡ map keyed letters
letters-format_map = refl

find_item-letter :
    (c : ℕ) (fmt : Text) (l : List (ℕ × Make))
    → find_item (c ∷ []) fmt (map keyed l) ≡ by_letter c fmt l
unfolding find_item
find_item-letter c fmt [] = refl
find_item-letter c fmt ((key, make) ∷ l) = elim (Bool-cases (key == c)) [
  | inl e ↦ rw e refl
  | inr e ↦ rw e (find_item-letter c fmt l)
]

find_item-empty : (fmt : Text) (l : List (ℕ × Make)) → find_item [] fmt (map keyed l) ≡ none
unfolding find_item
find_item-empty fmt [] = refl
find_item-empty fmt (x ∷ l) = find_item-empty fmt l

find_item-longer :
    (c d : ℕ) (t fmt : Text) (l : List (ℕ × Make))
    → find_item (c ∷ (d ∷ t)) fmt (map keyed l) ≡ none
unfolding find_item
find_item-longer c d t fmt [] = refl
find_item-longer c d t fmt ((key, make) ∷ l) = elim (Bool-cases (key == c)) [
  | inl e ↦ rw e (find_item-longer c d t fmt l)
  | inr e ↦ rw e (find_item-longer c d t fmt l)
]

find_item_lem : (name fmt : Text) → find_item name fmt format_map ≡ item_named name fmt
find_item_lem [] fmt = find_item-empty fmt letters
find_item_lem (c ∷ []) fmt = find_item-letter c fmt letters
find_item_lem (c ∷ (d ∷ t)) fmt = find_item-longer c d t fmt letters

item_of_lem :
    (name fmt : Text) (o : Option FormatItem)
    → find_item name fmt format_map ≡ o
    → item_of (format name fmt) ≡ (item_or_error name o, is_unknown o)
unfolding find_item
item_of_lem name fmt none e = rw e refl
item_of_lem name fmt (some item) e = rw e refl

make_items-flush :
    (t : Text) (ps : List Piece)
    → make_items (flush t ++ ps) ≡ (text_items t ++ (make_items ps).0, (make_items ps).1)
unfolding make_items
make_items-flush [] ps = refl
make_items-flush (c ∷ t) ps = refl

make_items-format :
    (name fmt : Text) (ps : List Piece)
    → make_items (format name fmt ∷ ps) ≡ (
      item_or_error name (item_named name fmt) ∷ (make_items ps).0,
      is_unknown (item_named name fmt) || (make_items ps).1,
    )
unfolding make_items
make_items-format name fmt ps =
    ap (λ i. (i.0 ∷ (make_items ps).0, i.1 || (make_items ps).1))
      (item_of_lem name fmt (item_named name fmt) (find_item_lem name fmt))

make_items-pieces_of :
    (ps : List Part) (last : Text)
    → make_items (pieces_of ps last) ≡ (items_of ps last, any_unknown ps)
unfolding make_items
make_items-pieces_of [] [] = refl
make_items-pieces_of [] (c ∷ t) = refl
make_items-pieces_of (p ∷ ps) last =
    let fmt = format_of p.fmt in
    let rest = format p.name fmt ∷ pieces_of ps last in
    make_items-flush p.before rest
    ∙ ap (λ m. (text_items p.before ++ m.0, m.1))
        (make_items-format p.name fmt (pieces_of ps last)
          ∙ ap
              (λ m. (
                item_or_error p.name (item_named p.name fmt) ∷ m.0,
                is_unknown (item_named p.name fmt) || m.1,
              ))
              (make_items-pieces_of ps last))

-- A pattern that is written from parts, each a text without %, a % and a name of letters with or without a format
-- in braces, and a last text, is read back as these parts: the items are, in their order, the texts that are not empty
-- and for each name the item of its letter, or the text of the error when the name is not one of the twelve letters
-- that have one; and there is an error just when there is such a name. A format has no closing brace, and a name
-- without one has a letter and is followed by neither a letter nor a brace.
pub new_formatter-show :
    (ps : List Part) (last : Text)
    → WellWritten ps last
    → new_formatter (show ps last)
      ≡ ok (record { pattern = show ps last; items = items_of ps last; is_error = any_unknown ps })
new_formatter-show ps last written =
    new_formatter-pieces ps last written
    ∙ ap (λ m. ok (record { pattern = show ps last; items = m.0; is_error = m.1 }))
        (make_items-pieces_of ps last)
