-- ===== src/Script/Statements.antt =====
-- internal/db/db.go: SplitStatements against a description of what a statement reads like.
use meshbridge.Base.{
  ℕ, ◌≡◌, ◌≢◌, ◌∙◌, refl, sym, ap, true, false, ◌&&◌, List, [], ◌∷◌, ◌++◌, ◌==◌, if_elim, All, map,
  Bool-cases, inl, inr, arith,
}
use meshbridge.Base.Text.{Text, trim_space, trim, trim_left, text_eq}
use mathlib.Core.List.{append_assoc, append-nil}
use meshbridge.Script.{
  Mode, plain, in_str, in_comment, starts_dash, last_statement, scan_script, split_statements,
}

-- `Reads m s t`: the scan goes over `s` from the mode `m` back to plain text without the end of a
-- statement, and keeps `t`.
pub data Reads : Mode → Text → Text → Type 0 where
  done : Reads plain [] []
  quote : {s t : Text} → Reads in_str s t → Reads plain (b'\'' ∷ s) (b'\'' ∷ t)
  unquote : {s t : Text} → Reads plain s t → Reads in_str (b'\'' ∷ s) (b'\'' ∷ t)
  inside : (c : ℕ) {s t : Text} → c ≢ b'\'' → Reads in_str s t → Reads in_str (c ∷ s) (c ∷ t)
  comment : {s t : Text} → Reads in_comment (b'-' ∷ s) t → Reads plain (b'-' ∷ b'-' ∷ s) t
  skipped : (c : ℕ) {s t : Text} → c ≢ 10 → Reads in_comment s t → Reads in_comment (c ∷ s) t
  ended : {s t : Text} → Reads plain s t → Reads in_comment (10 ∷ s) (10 ∷ t)
  kept :
      (c : ℕ) {s t : Text}
      → c ≢ b'\''
      → c ≢ b';'
      → (c == b'-' && starts_dash s) ≡ false
      → Reads plain s t
      → Reads plain (c ∷ s) (c ∷ t)

snoc : (cur : Text) (c : ℕ) (t : Text) → (cur ++ c ∷ []) ++ t ≡ cur ++ c ∷ t
snoc cur c t = append_assoc cur (c ∷ []) t

starts-append : (s rest : Text) → starts_dash s ≡ false → starts_dash (s ++ b';' ∷ rest) ≡ false
unfolding starts_dash
starts-append [] rest h = refl
starts-append (c ∷ s) rest h = h

no_comment :
    (c : ℕ) (s rest : Text)
    → (c == b'-' && starts_dash s) ≡ false
    → (c == b'-' && starts_dash (s ++ b';' ∷ rest)) ≢ true
no_comment c s rest d is = elim (Bool-cases (c == b'-')) [
  | inl dash ↦
      let before : starts_dash s ≡ false = ground arith in
      let behind : starts_dash (s ++ b';' ∷ rest) ≡ false = starts-append s rest before in
      absurd (ground arith)
  | inr other ↦ absurd (ground arith)
]

Reads-scan :
    (m : Mode) (s t cur rest : Text)
    → Reads m s t
    → scan_script m cur (s ++ b';' ∷ rest) ≡ (cur ++ t) ∷ scan_script plain [] rest
unfolding scan_script starts_dash
Reads-scan m s t cur rest done = ap (λ u. u ∷ scan_script plain [] rest) (sym (append-nil cur))
Reads-scan m s t cur rest (quote {s = s'} {t = t'} r) =
    Reads-scan in_str s' t' (cur ++ b'\'' ∷ []) rest r
    ∙ ap (λ u. u ∷ scan_script plain [] rest) (snoc cur b'\'' t')
Reads-scan m s t cur rest (unquote {s = s'} {t = t'} r) =
    Reads-scan plain s' t' (cur ++ b'\'' ∷ []) rest r
    ∙ ap (λ u. u ∷ scan_script plain [] rest) (snoc cur b'\'' t')
Reads-scan m s t cur rest (inside c {s = s'} {t = t'} n r) =
    if_elim (λ (l : List Text). l ≡ (cur ++ c ∷ t') ∷ scan_script plain [] rest) (c == b'\'')
      (λ is. absurd (ground arith))
      (λ _.
        Reads-scan in_str s' t' (cur ++ c ∷ []) rest r
        ∙ ap (λ u. u ∷ scan_script plain [] rest) (snoc cur c t'))
Reads-scan m s t cur rest (comment {s = s'} r) = Reads-scan in_comment (b'-' ∷ s') t cur rest r
Reads-scan m s t cur rest (skipped c {s = s'} n r) =
    if_elim (λ (l : List Text). l ≡ (cur ++ t) ∷ scan_script plain [] rest) (c == 10)
      (λ is. absurd (ground arith)) (λ _. Reads-scan in_comment s' t cur rest r)
Reads-scan m s t cur rest (ended {s = s'} {t = t'} r) =
    Reads-scan plain s' t' (cur ++ 10 ∷ []) rest r
    ∙ ap (λ u. u ∷ scan_script plain [] rest) (snoc cur 10 t')
Reads-scan m s t cur rest (kept c {s = s'} {t = t'} a b d r) =
    if_elim (λ (l : List Text). l ≡ (cur ++ c ∷ t') ∷ scan_script plain [] rest) (c == b'\'')
      (λ is. absurd (ground arith))
      (λ _.
        if_elim (λ (l : List Text). l ≡ (cur ++ c ∷ t') ∷ scan_script plain [] rest)
          (c == b'-' && starts_dash (s' ++ b';' ∷ rest)) (λ is. absurd (no_comment c s' rest d is))
          (λ _.
            if_elim (λ (l : List Text). l ≡ (cur ++ c ∷ t') ∷ scan_script plain [] rest) (c == b';')
              (λ is. absurd (ground arith))
              (λ _.
                Reads-scan plain s' t' (cur ++ c ∷ []) rest r
                ∙ ap (λ u. u ∷ scan_script plain [] rest) (snoc cur c t'))))

-- The script in which each statement ends in a semicolon.
abbrev pub terminated : List (Text × Text) → Text
terminated [] = []
terminated ((s, t) ∷ statements) = s ++ b';' ∷ terminated statements

-- A script of statements that each end in a semicolon splits into exactly these, in order, each as
-- written but for its comments; semicolons in strings and in comments end nothing.
pub split_statements-terminated :
    (statements : List (Text × Text))
    → All (λ (p : Text × Text). Reads plain p.0 p.1) statements
    → split_statements (terminated statements) ≡ map (λ (p : Text × Text). p.1) statements
unfolding split_statements scan_script last_statement trim_space trim trim_left text_eq
split_statements-terminated [] h = refl
split_statements-terminated ((s, t) ∷ statements) (first, h) =
    Reads-scan plain s t [] (terminated statements) first
    ∙ ap (λ l. t ∷ l) (split_statements-terminated statements h)
