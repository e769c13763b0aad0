-- ===== src/Http/Json.antt =====
-- pkg/http/server.go: `escapeJSON`.
pub mod Reading
use ocis_ftp_bridge.Prelude.{
  ℕ, ◌==◌, Bool, true, false, ◌&&◌, not, if◌then◌else◌, Bytes, List, codes, [], ◌∷◌, ◌++◌, ◌≡◌,
  refl, sym, ap, ◌∙◌, arith,
}
use ocis_ftp_bridge.Go.Replace.{replace_all, escape_byte, replace_all-byte, replace_all-same}
use mathlib.Core.List.{append_assoc}

abbrev pub backslash : ℕ
backslash = 92

abbrev pub quote : ℕ
quote = 34

-- The last two texts of the source are raw strings: a backslash and a letter, not a control byte.
unfoldable pub escape_json : Bytes → Bytes
unfolding replace_all
escape_json s =
    let slashes = replace_all s (backslash ∷ []) (backslash ∷ backslash ∷ []) in
    let quotes = replace_all slashes (quote ∷ []) (backslash ∷ quote ∷ []) in
    let lines = replace_all quotes (backslash ∷ b'n' ∷ []) (backslash ∷ b'n' ∷ []) in
    replace_all lines (backslash ∷ b't' ∷ []) (backslash ∷ b't' ∷ [])

-- A backslash in front of each backslash and each quote.
unfoldable pub escape_each : Bytes → Bytes
escape_each [] = []
escape_each (x ∷ s) =
    (if x == backslash
      then backslash ∷ backslash ∷ []
      else (if x == quote then backslash ∷ quote ∷ [] else x ∷ []))
    ++ escape_each s

escape_both :
    (s : Bytes)
    → escape_byte quote
        (backslash ∷ quote ∷ [])
        (escape_byte backslash (backslash ∷ backslash ∷ []) s)
      ≡ escape_each s
unfolding escape_byte escape_each
escape_both [] = refl
escape_both (x ∷ s) = ground (arith, escape_both s)

-- `escapeJSON` puts a backslash in front of every backslash and every double quote, and leaves every
-- other byte as it is, line feeds and tabs included.
pub escape_json-escape_each : (s : Bytes) → escape_json s ≡ escape_each s
unfolding escape_json
escape_json-escape_each s =
    replace_all-same backslash (b't' ∷ []) _
    ∙ replace_all-same backslash (b'n' ∷ []) _
    ∙ replace_all-byte quote (backslash ∷ quote ∷ []) _
    ∙ ap (escape_byte quote (backslash ∷ quote ∷ []))
        (replace_all-byte backslash (backslash ∷ backslash ∷ []) s)
    ∙ escape_both s
