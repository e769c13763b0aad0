-- ===== src/Http/Json/Reading.antt =====
-- Reading back what `escapeJSON` writes between double quotes.
use ocis_ftp_bridge.Prelude.{
  ℕ, ltb, ◌==◌, Bool, true, false, ◌||◌, if◌then◌else◌, Option, none, some, Bytes, [], ◌∷◌, ◌++◌,
  ◌≡◌, refl, ap, ◌∙◌, arith, Bool-cases, inl, inr,
}
use ocis_ftp_bridge.Http.Json.{backslash, quote, escape_json, escape_each, escape_json-escape_each}

-- The byte that a letter behind a backslash stands for; `\u` is left out.
unfoldable pub unescaped : ℕ → Option ℕ
unescaped c =
    if c == quote || (c == backslash || c == b'/')
    then some c
    else (if c == b'b'
        then some 8
        else (if c == b'f'
            then some 12
            else (if c == b'n'
                then some 10
                else (if c == b'r' then some 13 else (if c == b't' then some 9 else none)))))

abbrev pub put : ℕ → Option (Bytes × Bytes) → Option (Bytes × Bytes)
put x none = none
put x (some (s, rest)) = some (x ∷ s, rest)

abbrev pub put_escaped : Option ℕ → Option (Bytes × Bytes) → Option (Bytes × Bytes)
put_escaped none r = none
put_escaped (some x) r = put x r

-- A JSON string behind its opening quote, and what follows its closing quote; a control byte is not
-- allowed in it.
unfoldable pub read_string : Bytes → Option (Bytes × Bytes)
unfolding unescaped
read_string [] = none
read_string (x ∷ []) = if x == quote then some ([], []) else none
read_string (x ∷ y ∷ s) =
    let escaped = put_escaped (unescaped y) (read_string s) in
    let plain = put x (read_string (y ∷ s)) in
    if x == quote
    then some ([], y ∷ s)
    else (if x == backslash then escaped else (if ltb x 32 then none else plain))

unfoldable pub has_control_character : Bytes → Bool
has_control_character [] = false
has_control_character (x ∷ s) = ltb x 32 || has_control_character s

abbrev pub unless {ℓ} : {A : Type ℓ} → Bool → A → Option A
unless true a = none
unless false a = some a

put-unless :
    (x : ℕ) (b : Bool) (s rest : Bytes) → put x (unless b (s, rest)) ≡ unless b (x ∷ s, rest)
put-unless x true s rest = refl
put-unless x false s rest = refl

put_plain :
    (x : ℕ) (below control : Bool) (s rest : Bytes) (r : Option (Bytes × Bytes))
    → r ≡ unless control (s, rest)
    → (if below then none else put x r) ≡ unless (below || control) (x ∷ s, rest)
put_plain x true control s rest r h = refl
put_plain x false control s rest r h = ap (put x) h ∙ put-unless x control s rest

read_plain :
    (x : ℕ) (s : Bytes)
    → (x == quote) ≡ false
    → (x == backslash) ≡ false
    → (y : ℕ) (more : Bytes) → s ≡ y ∷ more
    → read_string (x ∷ s) ≡ (if ltb x 32 then none else put x (read_string s))
unfolding read_string
read_plain x s q b y more e = ground (arith, e, q, b)

read_quote : (rest : Bytes) → read_string (quote ∷ rest) ≡ some ([], rest)
unfolding read_string
read_quote [] = refl
read_quote (y ∷ rest) = refl

read_pair :
    (y : ℕ) (s : Bytes)
    → unescaped y ≡ some y
    → read_string (backslash ∷ y ∷ s) ≡ put y (read_string s)
unfolding read_string
read_pair y s h = ground (arith, h)

filled : (s : Bytes) (q : ℕ) (rest : Bytes) → (y : ℕ) × (more : Bytes) × (s ++ q ∷ rest ≡ y ∷ more)
filled [] q rest = (q, rest, refl)
filled (x ∷ s) q rest = (x, s ++ q ∷ rest, refl)

read-escape_each :
    (s rest : Bytes)
    → read_string (escape_each s ++ quote ∷ rest) ≡ unless (has_control_character s) (s, rest)
unfolding escape_each has_control_character unescaped
read-escape_each [] rest = read_quote rest
read-escape_each (x ∷ s) rest =
    let ih = read-escape_each s rest in
    elim (Bool-cases (x == backslash)) [
      | inl b ↦
          let is : x ≡ backslash = ground arith in
          rw is (
            read_pair backslash _ refl
            ∙ ap (put backslash) ih
            ∙ put-unless backslash (has_control_character s) s rest)
      | inr b ↦ elim (Bool-cases (x == quote)) [
        | inl q ↦
            let is : x ≡ quote = ground arith in
            rw is (
              read_pair quote _ refl
              ∙ ap (put quote) ih
              ∙ put-unless quote (has_control_character s) s rest)
        | inr q ↦
            let (y, more, e) = filled (escape_each s) quote rest in
            let plain = read_plain x (escape_each s ++ quote ∷ rest) q b y more e in
            rw (b, q) (plain ∙ put_plain x (ltb x 32) (has_control_character s) s rest _ ih)
      ]
    ]

-- What `escapeJSON` writes, between double quotes, reads back as the text it was given, up to the
-- closing quote, if the text has no control character; if it has one, as a line feed or a tab, it
-- is no JSON string.
pub read-escape_json :
    (s rest : Bytes)
    → read_string (escape_json s ++ quote ∷ rest) ≡ unless (has_control_character s) (s, rest)
read-escape_json s rest =
    ap (λ t. read_string (t ++ quote ∷ rest)) (escape_json-escape_each s) ∙ read-escape_each s rest
