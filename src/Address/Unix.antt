-- ===== src/Address/Unix.antt =====
-- UnixAddress of sylar/address.cpp: sun_path has 108 bytes and stands behind 2 of the family.
use sylar.Common.{
  ℕ, suc, ◌+◌, ◌-◌, ◌≤◌, ◌<◌, ◌≡◌, refl, ap, ◌∙◌, arith, inl, inr, Bool, true, false, ◌&&◌, List,
  [], ◌∷◌, ◌++◌, get_or, length, length-append, take, take_all, drop, replicate, leb, ltb, ◌==◌,
  if◌then◌else◌, Bool-cases,
}
use mathlib.Core.List.{append_assoc}
use sylar.Common.Text.{Text, codes}
use sylar.Common.Memory.{overwrite}
use sylar.Common.Outcome.{Outcome, ok, thrown, ◌>>=◌}

-- m_length is `size`.
pub record UnixAddress : Type 0 where
  pub sun_path : List ℕ
  pub size : ℕ

-- memset of sun_path.
unfoldable pub blank_path : List ℕ
blank_path = replicate 108 0

unfoldable pub new_unix : UnixAddress
unfolding blank_path
new_unix = record { sun_path = blank_path; size = 2 + 107 }

abbrev pub starts_with_nul : Text → Bool
starts_with_nul [] = false
starts_with_nul (c ∷ cs) = c == 0

-- The bytes that are copied: with the 0 behind the path, but not for an abstract one.
abbrev pub copied : Text → ℕ
copied path = if starts_with_nul path then length path else length path + 1

unfoldable pub unix_of_path : Text → Outcome UnixAddress
unfolding blank_path
unix_of_path path =
    if ltb 108 (copied path)
    then thrown
    else ok (record {
      sun_path = overwrite blank_path 0 (take (copied path) (path ++ (0 ∷ [])));
      size = copied path + 2;
    })

unfoldable pub set_addr_len : ℕ → UnixAddress → UnixAddress
set_addr_len addrlen a = record a { size = addrlen }

-- The characters up to the 0 that ends them.
abbrev pub c_string : List ℕ → Text
c_string [] = []
c_string (c ∷ cs) = if c == 0 then [] else c ∷ c_string cs

unfoldable pub insert_unix : UnixAddress → Text
insert_unix a =
    if ltb 2 a.size && (get_or a.sun_path 0 0 == 0)
    then codes "\\0" ++ take (a.size - 2 - 1) (drop 1 a.sun_path)
    else c_string a.sun_path

abbrev pub NoNul : Text → Type 0
NoNul [] = Unit
NoNul (c ∷ cs) = (0 < c) × NoNul cs

overwrite_front :
    (xs ds : List ℕ) → length ds ≤ length xs → overwrite xs 0 ds ≡ ds ++ drop (length ds) xs
overwrite_front [] [] h = refl
overwrite_front [] (d ∷ ds) h = absurd (omega arith)
overwrite_front (x ∷ xs) [] h = refl
overwrite_front (x ∷ xs) (d ∷ ds) h = ap (◌∷◌ d) (overwrite_front xs ds (omega arith))

c_string-append : (t : Text) (rest : List ℕ) → NoNul t → c_string (t ++ (0 ∷ rest)) ≡ t
c_string-append [] rest h = refl
c_string-append (c ∷ cs) rest (some_char, h) =
    let not_nul : (c == 0) ≡ false = ground (arith, some_char) in
    rw not_nul (ap (◌∷◌ c) (c_string-append cs rest h))

take-append : (xs ys : List ℕ) → take (length xs) (xs ++ ys) ≡ xs
take-append [] ys = refl
take-append (x ∷ xs) ys = ap (◌∷◌ x) (take-append xs ys)

length-blank_path : length blank_path ≡ 108
unfolding blank_path
length-blank_path = refl

printed_path :
    (c : ℕ) (cs tail : List ℕ) (size : ℕ)
    → 0 < c
    → NoNul cs
    → insert_unix (record { sun_path = (c ∷ cs) ++ (0 ∷ tail); size = size }) ≡ c ∷ cs
unfolding insert_unix
printed_path c cs tail size some_char plain =
    let not_nul : (c == 0) ≡ false = ground (arith, some_char) in
    let shown : ltb 2 size && (c == 0) ≡ false = ground (arith, not_nul) in
    rw (shown, not_nul) (ap (◌∷◌ c) (c_string-append cs tail plain))

printed_abstract :
    (cs tail : List ℕ)
    → insert_unix (record { sun_path = 0 ∷ (cs ++ tail); size = suc (length cs) + 2 })
      ≡ codes "\\0" ++ cs
unfolding insert_unix
printed_abstract cs tail =
    let long : ltb 2 (suc (length cs) + 2) ≡ true = ground arith in
    let rest : suc (length cs) + 2 - 2 - 1 ≡ length cs = omega arith in
    rw (long, rest) (ap (λ l. codes "\\0" ++ l) (take-append cs tail))

-- A path that fits is copied to the front.
stored :
    (path tail : Text)
    → copied path ≤ 108
    → take (copied path) (path ++ (0 ∷ [])) ≡ tail
    → length tail ≤ 108
    → unix_of_path path
      ≡ ok (record { sun_path = tail ++ drop (length tail) blank_path; size = copied path + 2 })
unfolding unix_of_path
stored path tail fits same short =
    let few : ltb 108 (copied path) ≡ false = ground (arith, fits) in
    rw (few, same, overwrite_front blank_path tail (omega (arith, length-blank_path, short))) refl

stored_path :
    (path : Text)
    → starts_with_nul path ≡ false
    → length path < 108
    → unix_of_path path
      ≡ ok (record {
        sun_path = path ++ (0 ∷ drop (length (path ++ (0 ∷ []))) blank_path);
        size = copied path + 2;
      })
stored_path path plain short =
    let sum : length (path ++ (0 ∷ [])) ≡ length path + 1 = length-append path (0 ∷ []) in
    let width : copied path ≡ length path + 1 = rw plain refl in
    let all = take_all (copied path) (path ++ (0 ∷ [])) (omega (arith, sum, width)) in
    stored path (path ++ (0 ∷ [])) (omega (arith, width)) all (omega (arith, sum))
    ∙ ap (λ l. ok (record { sun_path = l; size = copied path + 2 }))
        (append_assoc path (0 ∷ []) (drop (length (path ++ (0 ∷ []))) blank_path))

too_long :
    (c : ℕ) (path : Text)
    → (c == 0) ≡ false
    → ltb 106 (length path) ≡ true
    → unix_of_path (c ∷ path) ≡ thrown
unfolding unix_of_path
too_long c path not_nul e =
    let long : ltb 108 (copied (c ∷ path)) ≡ true = rw not_nul (ground (arith, e)) in rw long refl

too_long_abstract : (rest : Text) → ltb 107 (length rest) ≡ true → unix_of_path (0 ∷ rest) ≡ thrown
unfolding unix_of_path
too_long_abstract rest e =
    let long : ltb 108 (copied (0 ∷ rest)) ≡ true = ground (arith, e) in rw long refl

-- A path without a 0 that is not empty is stored so that it prints as itself if it has less than 108 characters, and
-- is refused by an exception if not; an abstract path, whose first character is 0, prints as \0 and the
-- rest if it has up to 108 characters, and is refused by an exception if not.
pub insert_unix-unix_of_path :
    (c : ℕ) (path rest : Text)
    → 0 < c
    → NoNul path
    → ((unix_of_path (c ∷ path) >>= λ a. ok (insert_unix a))
        ≡ (if ltb (length (c ∷ path)) 108 then ok (c ∷ path) else thrown))
      × ((unix_of_path (0 ∷ rest) >>= λ a. ok (insert_unix a))
          ≡ (if leb (length (0 ∷ rest)) 108 then ok (codes "\\0" ++ rest) else thrown))
insert_unix-unix_of_path c path rest some_char plain =
    let not_nul : (c == 0) ≡ false = ground (arith, some_char) in
    (
      elim (Bool-cases (ltb (length (c ∷ path)) 108)) [
        | inl e ↦
            rw (e, stored_path (c ∷ path) not_nul (ground (arith, e)))
              (ap ok (
                printed_path c path (drop (length ((c ∷ path) ++ (0 ∷ []))) blank_path)
                  (copied (c ∷ path) + 2) some_char plain))
        | inr e ↦
            let refused : unix_of_path (c ∷ path) ≡ thrown =
              too_long c path not_nul (ground (arith, e)) in
            rw (e, refused) refl
      ],
      elim (Bool-cases (leb (length (0 ∷ rest)) 108)) [
        | inl e ↦
            let short : length (0 ∷ rest) ≤ 108 = ground (arith, e) in
            rw (e, stored (0 ∷ rest) (0 ∷ rest) short (take-append (0 ∷ rest) (0 ∷ [])) short)
              (ap ok (printed_abstract rest (drop (suc (length rest)) blank_path)))
        | inr e ↦
            let refused : unix_of_path (0 ∷ rest) ≡ thrown =
              too_long_abstract rest (ground (arith, e)) in
            rw (e, refused) refl
      ],
    )
