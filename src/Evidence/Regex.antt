-- ===== src/Evidence/Regex.antt =====
-- What internal/evidence/redact.go uses of regexp on ASCII text: the leftmost match, its preferred
-- way first, all matches that do not overlap, and their replacement. Every repetition in the patterns
-- is of one class of bytes, and no pattern matches the empty text.
use kube_cure.Prelude.{
  ℕ, zero, suc, ◌-◌, Bool, true, false, not, ◌&&◌, ◌||◌, Option, none, some, List, [], ◌∷◌, ◌++◌,
  length, take, leb, ◌==◌,
}
use kube_cure.Text.{Text}
use kube_cure.Evidence.Redact.{Redactor}

abbrev pub Class : Type 0
Class = ℕ → Bool

pub data Regex : Type 0 where
  one : Class → Regex
  -- `{n}` for the number n, and `*` for 0
  at_least : ℕ → Class → Regex
  optional : Class → Regex
  boundary : Regex
  then_ : Regex → Regex → Regex
  or_ : Regex → Regex → Regex
  -- a group that is captured, by its number
  group : ℕ → Regex → Regex

abbrev pub Groups : Type 0
Groups = List (ℕ × Text)

-- Where a match stands: the byte before, the rest of the text, and the groups so far.
pub record Place : Type 0 where
  pub before : Option ℕ
  pub rest : Text
  pub groups : Groups

abbrev pub Next : Type 0
Next = Place → Option Place

unfoldable pub or_else : Option Place → Option Place → Option Place
or_else (some p) q = some p
or_else none q = q

unfoldable pub is_word : ℕ → Bool
is_word c = (leb 48 c && leb c 57) || (leb 65 c && leb c 90) || (leb 97 c && leb c 122) || c == 95

unfoldable pub word_before : Option ℕ → Bool
unfolding is_word
word_before none = false
word_before (some c) = is_word c

unfoldable pub word_after : Text → Bool
unfolding is_word
word_after [] = false
word_after (c ∷ s) = is_word c

-- `\b`
unfoldable pub at_boundary : Place → Bool
unfolding word_before word_after
at_boundary p = elim (word_before p.before) [
  | true ↦ not (word_after p.rest)
  | false ↦ word_after p.rest
]

unfoldable pub step_one : Class → Option ℕ → Text → Groups → Next → Option Place
step_one p before [] groups k = none
step_one p before (c ∷ s) groups k = elim (p c) [
  | true ↦ k (record { before = some c; rest = s; groups = groups })
  | false ↦ none
]

-- As many as possible are tried first.
unfoldable pub step_many : Class → Option ℕ → Text → Groups → Next → Option Place
unfolding or_else
step_many p before [] groups k = k (record { before = before; rest = []; groups = groups })
step_many p before (c ∷ s) groups k = elim (p c) [
  | true ↦
      or_else (step_many p (some c) s groups k)
        (k (record { before = before; rest = c ∷ s; groups = groups }))
  | false ↦ k (record { before = before; rest = c ∷ s; groups = groups })
]

unfoldable pub step_at_least : ℕ → Class → Place → Next → Option Place
unfolding step_many step_one
step_at_least zero p at k = step_many p at.before at.rest at.groups k
step_at_least (suc n) p at k =
    step_one p at.before at.rest at.groups (λ next. step_at_least n p next k)

-- What a group has matched, between two places.
unfoldable pub between : Place → Place → Text
between start end = take (length start.rest - length end.rest) start.rest

unfoldable pub capture : ℕ → Place → Place → Place
unfolding between
capture i start end = record end { groups = (i, between start end) ∷ end.groups }

unfoldable pub match_at : Regex → Place → Next → Option Place
unfolding step_one step_at_least or_else at_boundary capture
match_at (one p) at k = step_one p at.before at.rest at.groups k
match_at (at_least n p) at k = step_at_least n p at k
match_at (optional p) at k = or_else (step_one p at.before at.rest at.groups k) (k at)
match_at boundary at k = elim (at_boundary at) [ true ↦ k at | false ↦ none ]
match_at (then_ a b) at k = match_at a at (λ next. match_at b next k)
match_at (or_ a b) at k = or_else (match_at a at k) (match_at b at k)
match_at (group i a) at k = match_at a at (λ end. k (capture i at end))

-- A piece of a text: a byte that is kept, or a match with its groups.
pub data Piece : Type 0 where
  kept : ℕ → Piece
  hit : Text → Groups → Piece

pub record Pattern : Type 0 where
  pub name : Text
  pub regex : Regex
  pub replace : Groups → Text

-- The match at a place, as its length and its groups.
unfoldable pub located : ℕ → Option Place → Option (ℕ × Groups)
located n none = none
located n (some end) = some (n - length end.rest, end.groups)

unfoldable pub found_at : Regex → Option ℕ → Text → Option (ℕ × Groups)
unfolding match_at located
found_at r before s =
    located (length s)
      (match_at r (record { before = before; rest = s; groups = [] }) (λ end. some end))

-- The pieces of a text, of which the first `skip` bytes belong to a match before.
unfoldable pub pieces_from : Regex → ℕ → Option ℕ → Text → List Piece
unfolding found_at
pieces_from r skip before [] = []
pieces_from r (suc skip) before (c ∷ s) = pieces_from r skip (some c) s
pieces_from r zero before (c ∷ s) = elim (found_at r before (c ∷ s)) [
  | some (suc n, groups) ↦ hit (take (suc n) (c ∷ s)) groups ∷ pieces_from r n (some c) s
  | _ ↦ kept c ∷ pieces_from r zero (some c) s
]

unfoldable pub hits : List Piece → ℕ
hits [] = 0
hits (kept c ∷ rest) = hits rest
hits (hit m groups ∷ rest) = suc (hits rest)

unfoldable pub replaced : (Groups → Text) → List Piece → Text
replaced replace [] = []
replaced replace (kept c ∷ rest) = c ∷ replaced replace rest
replaced replace (hit m groups ∷ rest) = replace groups ++ replaced replace rest

-- FindAllStringIndex, of which the code uses the length, and ReplaceAllString.
unfoldable pub redactor_of : Pattern → Redactor
unfolding pieces_from hits replaced
redactor_of pattern = record {
  name = pattern.name;
  matches = λ s. hits (pieces_from pattern.regex zero none s);
  replace_all = λ s. replaced pattern.replace (pieces_from pattern.regex zero none s);
}
