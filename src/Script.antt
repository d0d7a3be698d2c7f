-- ===== src/Script.antt =====
-- internal/db/db.go: SplitStatements. Characters are their codes.
pub mod Statements
mod Tests
use meshbridge.Base.{ℕ, Bool, true, false, ◌&&◌, not, List, [], ◌∷◌, ◌++◌, ◌==◌, if◌then◌else◌}
use meshbridge.Base.Text.{Text, trim_space, text_eq}

-- Where the scan stands; the source skips a comment in a loop of its own.
pub data Mode : Type 0 where
  plain in_str in_comment : Mode

unfoldable pub starts_dash : Text → Bool
starts_dash [] = false
starts_dash (c ∷ s) = c == b'-'

-- The text that is left at the end is a statement unless it is blank.
unfoldable pub last_statement : Text → List Text
unfolding trim_space text_eq
last_statement cur = if text_eq (trim_space cur) [] then [] else cur ∷ []

unfoldable pub scan_script : Mode → Text → Text → List Text
unfolding starts_dash last_statement
scan_script mode cur [] = last_statement cur
scan_script in_str cur (c ∷ s) =
    let closed = scan_script plain (cur ++ c ∷ []) s in
    let open_ = scan_script in_str (cur ++ c ∷ []) s in if c == b'\'' then closed else open_
scan_script in_comment cur (c ∷ s) =
    let ended = scan_script plain (cur ++ c ∷ []) s in
    let skipped = scan_script in_comment cur s in if c == 10 then ended else skipped
scan_script plain cur (c ∷ s) =
    let quoted = scan_script in_str (cur ++ c ∷ []) s in
    let comment = scan_script in_comment cur s in
    let next = scan_script plain [] s in
    let kept = scan_script plain (cur ++ c ∷ []) s in
    if c == b'\''
    then quoted
    else if c == b'-' && starts_dash s
    then comment
    else if c == b';'
    then cur ∷ next
    else kept

unfoldable pub split_statements : Text → List Text
unfolding scan_script
split_statements = scan_script plain []
