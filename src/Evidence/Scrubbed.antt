-- ===== src/Evidence/Scrubbed.antt =====
-- internal/evidence/redact.go: the value of an assignment does not survive.
use kube_cure.Prelude.{
  ℕ, ◌+◌, ◌-◌, ◌≤◌, ◌≡◌, ◌≢◌, refl, ap, ◌∙◌, true, false, Option, none, some, List, [], ◌∷◌, ◌++◌,
  length, length-append, append-nil, take, All, ◌==◌, arith,
}
use kube_cure.Text.{Text, codes}
use kube_cure.Evidence.Redact.{Redactor, redact, redact_from}
use kube_cure.Evidence.Regex.{
  redactor_of, optional, at_least, then_, Place, Next, Groups, between, match_at, found_at, located,
  pieces_from, hit, hits, replaced, or_else,
}
use kube_cure.Evidence.Patterns.{
  is_value, is_blank, is_byte, value_part, assignment, bearer, jwt, connection_string,
  aws_access_key, service_account_token, patterns, redactors,
}
use kube_cure.Evidence.Matching.{
  at_least-All, many-none, one-none, pieces-all, matches-pieces, replace_all-pieces, redact-once,
}

value_starts : (c : ℕ) → is_value c ≡ true → (is_blank c ≡ false) × ((c == 34) ≡ false)
value_starts c h = (ground arith, ground arith)

abbrev finish : Next
finish end = some end

-- What follows the sign: four bytes or more that may stand in a value, up to the end of the text.
value-All :
    (before : Option ℕ) (c : ℕ) (v : Text) (groups : Groups)
    → 3 ≤ length v
    → All (λ x. is_value x ≡ true) (c ∷ v)
    → (e : Option ℕ) × (match_at value_part
          (record { before = before; rest = c ∷ v; groups = groups })
          finish
        ≡ some (record { before = e; rest = []; groups = groups }))
unfolding match_at value_part or_else
value-All before c v groups enough (here, h) =
    let (not_blank, not_quote) = value_starts c here in
    let quoted : Next = λ next. match_at (optional (is_byte 34)) next finish in
    let unquoted : Next =
      λ next. match_at (then_ (at_least 4 is_value) (optional (is_byte 34))) next finish in
    let content : Next = λ next.
      match_at (then_ (optional (is_byte 34)) (then_ (at_least 4 is_value) (optional (is_byte 34))))
        next finish in
    let (e, took) =
      at_least-All 4 is_value before (c ∷ v) groups quoted (omega arith) (here, h) (λ b. refl) in
    (
      e,
      many-none is_blank before c v groups content not_blank
          ∙ rw (one-none (is_byte 34) before c v groups unquoted not_quote) took,
    )

-- The words that the pattern of an assignment knows, with an underscore where it may have one.
pub data Keyword : Type 0 where
  password passwd pwd secret token api_key access_key private_key credential : Keyword

unfoldable pub word_of : Keyword → Text
word_of password = codes "password"
word_of passwd = codes "passwd"
word_of pwd = codes "pwd"
word_of secret = codes "secret"
word_of token = codes "token"
word_of api_key = codes "api_key"
word_of access_key = codes "access_key"
word_of private_key = codes "private_key"
word_of credential = codes "credential"

pub data Sign : Type 0 where
  equals colon : Sign

unfoldable pub byte_of : Sign → ℕ
byte_of equals = 61
byte_of colon = 58

last_of : Keyword → ℕ
last_of password = 100
last_of passwd = 100
last_of pwd = 100
last_of secret = 116
last_of token = 110
last_of api_key = 121
last_of access_key = 121
last_of private_key = 121
last_of credential = 108

abbrev group_of : Text → ℕ → ℕ → Text → Groups
group_of w last sign s =
    (
      1,
      between (record { before = none; rest = w ++ sign ∷ s; groups = [] })
          (record { before = some last; rest = sign ∷ s; groups = [] }),
    )
    ∷ []

or_else-none : (o : Option Place) → or_else o none ≡ o
unfolding or_else
or_else-none none = refl
or_else-none (some end) = refl

-- The pattern goes through the word and the sign in one way.
leads :
    (k : Keyword) (sign : Sign) (s : Text)
    → match_at assignment.regex
        (record { before = none; rest = word_of k ++ byte_of sign ∷ s; groups = [] })
        finish
      ≡ match_at value_part
          (record {
            before = some (byte_of sign);
            rest = s;
            groups = group_of (word_of k) (last_of k) (byte_of sign) s;
          })
          finish
unfolding assignment match_at or_else word_of byte_of last_of
leads password equals s = or_else-none _
leads password colon s = or_else-none _
leads passwd equals s = or_else-none _
leads passwd colon s = or_else-none _
leads pwd equals s = or_else-none _
leads pwd colon s = or_else-none _
leads secret equals s = or_else-none _
leads secret colon s = or_else-none _
leads token equals s = or_else-none _
leads token colon s = or_else-none _
leads api_key equals s = or_else-none _ ∙ or_else-none _
leads api_key colon s = or_else-none _ ∙ or_else-none _
leads access_key equals s = or_else-none _ ∙ or_else-none _
leads access_key colon s = or_else-none _ ∙ or_else-none _
leads private_key equals s = or_else-none _ ∙ or_else-none _
leads private_key colon s = or_else-none _ ∙ or_else-none _
leads credential equals s = refl
leads credential colon s = refl

take-length : (w s : Text) → take (length w) (w ++ s) ≡ w
take-length [] s = refl
take-length (c ∷ w) s = ap (λ t. c ∷ t) (take-length w s)

-- The group is the word before the sign.
between-word :
    (w s : Text) (last sign : ℕ)
    → between
        (record { before = none; rest = w ++ sign ∷ s; groups = [] })
        (record { before = some last; rest = sign ∷ s; groups = [] })
      ≡ w
unfolding between
between-word w s last sign =
    ap (λ n. take n (w ++ sign ∷ s)) (word_length (length-append w (sign ∷ s)))
    ∙ take-length w (sign ∷ s)
  where
    word_length : {n : ℕ} → n ≡ length w + length (sign ∷ s) → n - length (sign ∷ s) ≡ length w
    word_length h = omega arith

abbrev assigned : Keyword → Sign → Text → Text
assigned k sign s = word_of k ++ byte_of sign ∷ s

found-assigned :
    (k : Keyword) (sign : Sign) (c : ℕ) (v : Text)
    → 3 ≤ length v
    → All (λ x. is_value x ≡ true) (c ∷ v)
    → found_at assignment.regex none (assigned k sign (c ∷ v))
      ≡ some (length (assigned k sign (c ∷ v)), (1, word_of k) ∷ [])
unfolding found_at located
found-assigned k sign c v enough h =
    let (e, took) =
      value-All (some (byte_of sign)) c v (group_of (word_of k) (last_of k) (byte_of sign) (c ∷ v))
        enough h in
    ap (located (length (assigned k sign (c ∷ v)))) (leads k sign (c ∷ v) ∙ took)
    ∙ rw (between-word (word_of k) (c ∷ v) (last_of k) (byte_of sign))
        (ap (λ n. some (n, (1, word_of k) ∷ [])) (less_nothing (length (assigned k sign (c ∷ v)))))
  where
    less_nothing : (n : ℕ) → n - 0 ≡ n
    less_nothing n = omega arith

abbrev others : List Redactor
others =
    redactor_of bearer
    ∷ redactor_of jwt
    ∷ redactor_of connection_string
    ∷ redactor_of aws_access_key
    ∷ redactor_of service_account_token
    ∷ []

abbrev marked : Keyword → Text
marked k = word_of k ++ codes "=[REDACTED]"

-- The other patterns leave the marker alone.
others-marked : (k : Keyword) → redact_from others (marked k) 1 ≡ (marked k, 1)
unfolding word_of redact_from redactor_of bearer jwt connection_string aws_access_key
    service_account_token
others-marked password = refl
others-marked passwd = refl
others-marked pwd = refl
others-marked secret = refl
others-marked token = refl
others-marked api_key = refl
others-marked access_key = refl
others-marked private_key = refl
others-marked credential = refl

redactors-others : redactors ≡ redactor_of assignment ∷ others
unfolding redactors patterns
redactors-others = refl

replaced-assigned :
    (k : Keyword) (m : Text)
    → replaced assignment.replace (hit m ((1, word_of k) ∷ []) ∷ []) ≡ marked k
unfolding replaced assignment
replaced-assigned k m = append-nil (marked k)

hits-one : (m : Text) (groups : Groups) → hits (hit m groups ∷ []) ≡ 1
unfolding hits
hits-one m groups = refl

-- The pieces of an assignment that is the whole text.
pieces-assigned :
    (k : Keyword) (sign : Sign) (s : Text)
    → found_at assignment.regex none (assigned k sign s)
      ≡ some (length (assigned k sign s), (1, word_of k) ∷ [])
    → pieces_from assignment.regex 0 none (assigned k sign s)
      ≡ hit (take (length (assigned k sign s)) (assigned k sign s)) ((1, word_of k) ∷ []) ∷ []
pieces-assigned k sign s h =
    pieces-all assignment.regex ((1, word_of k) ∷ []) (assigned k sign s) (not_nil (word_of k)) h
  where
    not_nil : (w : Text) → w ++ byte_of sign ∷ s ≢ []
    not_nil [] e = cc
    not_nil (c ∷ w) e = cc

-- A text that is one of the nine words in lower case, an equals sign or a colon, and a value, and
-- nothing else, loses the value, whatever it is, if it has four bytes or more and none of them is a
-- blank, a quote, a comma, a semicolon or a closing bracket: the six patterns together leave the word
-- with one marker in the value's place and count one match.
pub value_removed :
    (k : Keyword) (sign : Sign) (c : ℕ) (v : Text)
    → 3 ≤ length v
    → All (λ x. is_value x ≡ true) (c ∷ v)
    → redact redactors (word_of k ++ byte_of sign ∷ c ∷ v) ≡ (word_of k ++ codes "=[REDACTED]", 1)
value_removed k sign c v enough h =
    let s = assigned k sign (c ∷ v) in
    let pieces = pieces-assigned k sign (c ∷ v) (found-assigned k sign c v enough h) in
    ap (λ rs. redact rs s) redactors-others
    ∙ redact-once (redactor_of assignment) others s (marked k)
        (matches-pieces assignment s ∙ ap hits pieces ∙ hits-one _ _)
        (replace_all-pieces assignment s
          ∙ ap (replaced assignment.replace) pieces
          ∙ replaced-assigned k _)
    ∙ others-marked k
