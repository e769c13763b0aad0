-- ===== src/Observability.antt =====
-- pkg/observability: the level of the logger and what passes it. slog's handlers and the output are left
-- out; what reaches the handler and its own level are kept.
use ocis_ftp_bridge.Prelude.{
  ℕ, ◌≡◌, sym, ap, ◌∙◌, Bool-cases, inl, inr, ◌||◌, ◌&&◌, ltb, leb, if◌then◌else◌, Option, none,
  some, Option-cases, Bool, Bytes, codes, same, List, [], ◌∷◌, ◌++◌, arith,
}
use mathlib.Core.List.{append_assoc, append-nil}

pub data Level : Type 0 where
  debug info warn error : Level

unfoldable pub level_text : Level → Bytes
level_text debug = codes "DEBUG"
level_text info = codes "INFO"
level_text warn = codes "WARN"
level_text error = codes "ERROR"

-- The number of the constant.
abbrev pub rank : Level → ℕ
rank debug = 0
rank info = 1
rank warn = 2
rank error = 3

unfoldable pub parse_level : Bytes → Level
parse_level level =
    if same level (codes "DEBUG") || same level (codes "debug")
    then debug
    else (if same level (codes "INFO") || same level (codes "info")
        then info
        else (if same level (codes "WARN")
              || (same level (codes "warn")
                  || (same level (codes "WARNING") || same level (codes "warning")))
            then warn
            else (if same level (codes "ERROR") || same level (codes "error")
                then error
                else info)))

pub record Entry : Type 0 where
  pub level : Level
  pub message : Bytes

pub data Output : Type 0 where
  stdout stderr : Output
  log_file : Bytes → Output

-- `handler_level` is the level of the slog handler, fixed when the logger is made; `written` is what the
-- handler wrote.
pub record Logger : Type 0 where
  pub output : Output
  pub level : Level
  pub handler_level : Level
  pub written : List Entry

-- `opens` tells whether `os.OpenFile` succeeds.
unfoldable pub get_output_writer : (Bytes → Bool) → Bytes → Option Output
get_output_writer opens output =
    if same output (codes "stdout")
    then some stdout
    else (if same output (codes "stderr")
        then some stderr
        else (if same output []
            then some stdout
            else (if opens output then some (log_file output) else none)))

-- `none` is an error of opening the output.
unfoldable pub new_logger : (Bytes → Bool) → Bytes → Bytes → Option Logger
unfolding parse_level get_output_writer
new_logger opens output level = elim (get_output_writer opens output) [
  | none ↦ none
  | some out ↦ some (record {
    output = out;
    level = parse_level level;
    handler_level = parse_level level;
    written = [];
  })
]

-- slog writes what is not below the handler's level.
unfoldable pub handle : Level → Bytes → Logger → Logger
handle level message l =
    if ltb (rank level) (rank l.handler_level)
    then l
    else record l { written = l.written ++ record { level = level; message = message } ∷ [] }

unfoldable pub log : Level → Bytes → Logger → Logger
unfolding handle
log level message l = if ltb (rank level) (rank l.level) then l else handle level message l

unfoldable pub set_level : Level → Logger → Logger
set_level level l = record l { level = level }

-- `Log` of the client, with the level in lower case.
unfoldable pub client_level : Bytes → Level
client_level level =
    if same level (codes "debug")
    then debug
    else (if same level (codes "warn") || same level (codes "warning")
        then warn
        else (if same level (codes "error") then error else info))

unfoldable pub client_log : (Bytes → Bytes) → Bytes → Bytes → Logger → Logger
unfolding client_level log
client_log to_lower level message l = log (client_level (to_lower level)) message l

-- A use of the logger: a message, or a new level.
pub data Use : Type 0 where
  a_message : Level → Bytes → Use
  a_level : Level → Use

unfoldable pub use_logger : List Use → Logger → Logger
unfolding log set_level
use_logger [] l = l
use_logger (a_message level message ∷ more) l = use_logger more (log level message l)
use_logger (a_level level ∷ more) l = use_logger more (set_level level l)

-- The messages at or above both the level that the logger was made with and the one that was set last.
unfoldable pub passing : ℕ → ℕ → List Use → List Entry
passing made set [] = []
passing made set (a_message level message ∷ more) =
    let rest = passing made set more in
    if leb made (rank level) && leb set (rank level)
    then record { level = level; message = message } ∷ rest
    else rest
passing made set (a_level level ∷ more) = passing made (rank level) more

use_logger-handler :
    (uses : List Use) (l : Logger)
    → (use_logger uses l).written ≡ l.written ++ passing (rank l.handler_level) (rank l.level) uses
unfolding use_logger passing log handle set_level
use_logger-handler [] l = sym (append-nil l.written)
use_logger-handler (a_level level ∷ more) l = use_logger-handler more (set_level level l)
use_logger-handler (a_message level message ∷ more) l =
    let entry : Entry = record { level = level; message = message } in
    let rest = passing (rank l.handler_level) (rank l.level) more in
    elim (Bool-cases (leb (rank l.handler_level) (rank level) && leb (rank l.level) (rank level))) [
      | inl passes ↦
          let wrote : log level message l ≡ record l { written = l.written ++ entry ∷ [] } =
            ground arith in
          ap (λ t. (use_logger more t).written) wrote
          ∙ use_logger-handler more (record l { written = l.written ++ entry ∷ [] })
          ∙ append_assoc l.written (entry ∷ []) rest
          ∙ ap (λ b. l.written ++ (if b then entry ∷ rest else rest)) (sym passes)
      | inr stopped ↦
          let wrote : log level message l ≡ l = ground arith in
          ap (λ t. (use_logger more t).written) wrote
          ∙ use_logger-handler more l
          ∙ ap (λ b. l.written ++ (if b then entry ∷ rest else rest)) (sym stopped)
    ]

new_logger-some :
    (opens : Bytes → Bool) (output level : Bytes) (l : Logger)
    → new_logger opens output level ≡ some l
    → (l.level ≡ parse_level level) × (l.handler_level ≡ parse_level level) × (l.written ≡ [])
unfolding new_logger
new_logger-some opens output level l made = elim (Option-cases (get_output_writer opens output)) [
  | inl missing ↦ ground (arith, missing)
  | inr (out, opened) ↦
      let is : record {
        output = out;
        level = parse_level level;
        handler_level = parse_level level;
        written = [];
      }
          ≡ l =
        ground (arith, opened) in
      (
        ap (λ (x : Logger). x.level) (sym is),
        ap (λ (x : Logger). x.handler_level) (sym is),
        ap (λ (x : Logger). x.written) (sym is),
      )
]

-- What a logger of `NewLogger` writes are, in their order, the messages whose level is at or above both the level that
-- the logger was made with and the level that was set last: `SetLevel` raises the threshold, and does
-- not lower it below the first one.
pub use_logger_written :
    (opens : Bytes → Bool) (output level : Bytes) (l : Logger) (uses : List Use)
    → new_logger opens output level ≡ some l
    → (use_logger uses l).written
      ≡ passing (rank (parse_level level)) (rank (parse_level level)) uses
use_logger_written opens output level l uses made =
    let (at, fixed, nothing) = new_logger-some opens output level l made in
    use_logger-handler uses l
    ∙ ap (λ w. w ++ passing (rank l.handler_level) (rank l.level) uses) nothing
    ∙ ap (λ m. passing (rank m) (rank l.level) uses) fixed
    ∙ ap (λ n. passing (rank (parse_level level)) (rank n) uses) at
