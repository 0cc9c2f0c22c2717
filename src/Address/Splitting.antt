-- ===== src/Address/Splitting.antt =====
-- How Lookup takes a host apart.
use sylar.Common.{
  ℕ, ◌≡◌, refl, ap, ◌∙◌, arith, inl, inr, Bool, true, false, not, none, some, [], ◌∷◌, ◌++◌, ◌==◌,
  if◌then◌else◌, Bool-cases,
}
use sylar.Common.Text.{Text}
use sylar.Address.Lookup.{
  break_at, service_behind, split_brackets, split_colon, split_host, node_or,
}

-- The text has no such character.
abbrev pub lacks : ℕ → Text → Bool
lacks c [] = true
lacks c (d ∷ t) = if d == c then false else lacks c t

break_at-append :
    (c : ℕ) (front back : Text)
    → lacks c front ≡ true
    → break_at c (front ++ (c ∷ back)) ≡ some (front, back)
unfolding break_at
break_at-append c [] back h = let same : (c == c) ≡ true = ground arith in rw same refl
break_at-append c (d ∷ t) back h = elim (Bool-cases (d == c)) [
  | inl e ↦ absurd (let bad : false ≡ true = rw e at h in cc)
  | inr e ↦ let rest : lacks c t ≡ true = rw e at h in rw (e, break_at-append c t back rest) refl
]

break_at-lacks : (c : ℕ) (t : Text) → lacks c t ≡ true → break_at c t ≡ none
unfolding break_at
break_at-lacks c [] h = refl
break_at-lacks c (d ∷ t) h = elim (Bool-cases (d == c)) [
  | inl e ↦ absurd (let bad : false ≡ true = rw e at h in cc)
  | inr e ↦ let rest : lacks c t ≡ true = rw e at h in rw (e, break_at-lacks c t rest) refl
]

bracketed :
    (d : ℕ) (node behind : Text)
    → lacks 93 (d ∷ node) ≡ true
    → split_host (91 ∷ ((d ∷ node) ++ (93 ∷ behind))) ≡ (d ∷ node, service_behind behind)
unfolding split_host split_brackets
bracketed d node behind h = rw (break_at-append 93 (d ∷ node) behind h) refl

unbracketed :
    (d : ℕ) (t : Text)
    → (d == 91) ≡ false
    → split_host (d ∷ t) ≡ node_or (d ∷ t) (split_colon (d ∷ t))
unfolding split_host split_brackets
unbracketed d t first = rw first refl

one_colon :
    (node service : Text)
    → lacks 58 node ≡ true
    → lacks 58 service ≡ true
    → split_colon (node ++ (58 ∷ service)) ≡ (node, some service)
unfolding split_colon
one_colon node service plain one =
    rw (split_colon, break_at-append 58 node service plain, break_at-lacks 58 service one) refl

no_colon : (node : Text) → lacks 58 node ≡ true → split_colon node ≡ ([], none)
unfolding split_colon
no_colon node plain = rw (split_colon, break_at-lacks 58 node plain) refl

two_colons :
    (node service later : Text)
    → lacks 58 node ≡ true
    → lacks 58 service ≡ true
    → split_colon (node ++ (58 ∷ (service ++ (58 ∷ later))))
      ≡ ([], some (58 ∷ (service ++ (58 ∷ later))))
unfolding split_colon
two_colons node service later plain one =
    rw
      (
        split_colon,
        break_at-append 58 node (service ++ (58 ∷ later)) plain,
        break_at-append 58 service later one,
      )
      refl

-- No bracket is in front.
abbrev pub unopened : Text → Bool
unopened [] = true
unopened (c ∷ t) = not (c == 91)

kept_whole :
    (front service later : Text)
    → lacks 58 front ≡ true
    → unopened front ≡ true
    → lacks 58 service ≡ true
    → split_host (front ++ (58 ∷ (service ++ (58 ∷ later))))
      ≡ (front ++ (58 ∷ (service ++ (58 ∷ later))), some (58 ∷ (service ++ (58 ∷ later))))
kept_whole [] service later plain unbarred one =
    let all = service ++ (58 ∷ later) in
    unbracketed 58 all refl ∙ ap (node_or (58 ∷ all)) (two_colons [] service later plain one)
kept_whole (d ∷ node) service later plain unbarred one =
    let all = node ++ (58 ∷ (service ++ (58 ∷ later))) in
    let first : (d == 91) ≡ false = ground (arith, unbarred) in
    unbracketed d all first ∙ ap (node_or (d ∷ all)) (two_colons (d ∷ node) service later plain one)

-- `[node]:service` and `node:service` give the node and the service, `[node]` and `node` the node alone, for a node
-- that has a first character other than `[`, no closing bracket and no colon, and a service without a colon. A host
-- with two colons or more that does not begin with `[`, one that begins with a colon included, is kept whole, and
-- what begins at its first colon is taken for the service.
pub split_host-parts :
    (d : ℕ) (node service front between later : Text)
    → lacks 93 (d ∷ node) ≡ true
    → lacks 58 (d ∷ node) ≡ true
    → (d == 91) ≡ false
    → lacks 58 service ≡ true
    → lacks 58 front ≡ true
    → unopened front ≡ true
    → lacks 58 between ≡ true
    → (split_host (91 ∷ ((d ∷ node) ++ (93 ∷ (58 ∷ service)))) ≡ (d ∷ node, some service))
      × (split_host (91 ∷ ((d ∷ node) ++ (93 ∷ []))) ≡ (d ∷ node, none))
      × (split_host ((d ∷ node) ++ (58 ∷ service)) ≡ (d ∷ node, some service))
      × (split_host (d ∷ node) ≡ (d ∷ node, none))
      × (split_host (front ++ (58 ∷ (between ++ (58 ∷ later))))
          ≡ (front ++ (58 ∷ (between ++ (58 ∷ later))), some (58 ∷ (between ++ (58 ∷ later)))))
split_host-parts d node service front between later closed plain first one plain_front unbarred
      apart =
    (
      bracketed d node (58 ∷ service) closed,
      bracketed d node [] closed,
      unbracketed d (node ++ (58 ∷ service)) first
          ∙ ap (node_or (d ∷ (node ++ (58 ∷ service)))) (one_colon (d ∷ node) service plain one),
      unbracketed d node first ∙ ap (node_or (d ∷ node)) (no_colon (d ∷ node) plain),
      kept_whole front between later plain_front unbarred apart,
    )
