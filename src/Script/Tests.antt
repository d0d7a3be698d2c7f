-- ===== src/Script/Tests.antt =====
-- A statement with a comment and one with a semicolon in a string.
use meshbridge.Base.{◌≡◌, refl, [], ◌∷◌, List, All, arith, ◌++◌}
use meshbridge.Base.Text.{Text, codes}
use meshbridge.Script.{split_statements, plain, starts_dash}
use meshbridge.Script.Statements.{
  Reads, done, quote, unquote, inside, comment, skipped, ended, kept, terminated,
  split_statements-terminated,
}

abbrev two : List (Text × Text)
two = (codes "a--;" ++ 10 ∷ [], b'a' ∷ 10 ∷ []) ∷ (codes "';'", codes "';'") ∷ []

two-Reads : All (λ (p : Text × Text). Reads plain p.0 p.1) two
unfolding starts_dash
two-Reads = (
  kept b'a' (omega arith) (omega arith) refl
      (comment (skipped b'-' (omega arith) (skipped b';' (omega arith) (ended done)))),
  (quote (inside b';' (omega arith) (unquote done)), tt),
)

split_statements-terminated_example :
    split_statements (terminated two) ≡ (b'a' ∷ 10 ∷ []) ∷ codes "';'" ∷ []
split_statements-terminated_example = split_statements-terminated two two-Reads
