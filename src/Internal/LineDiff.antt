-- ===== src/Internal/LineDiff.antt =====
-- internal/regexp_line_diff.go and internal/prometheus.go: a text against a list of patterns.
pub mod Matching
mod Tests
use Prim.Native.Char.{code}
use Prim.Native.String
use hotload.Prelude.{
  ℕ, zero, suc, String, Bool, true, false, Option, none, some, List, [], ◌∷◌, ltb, ◌==◌, length,
  str_eq, if◌then◌else◌,
}
use hotload.State.{Error, Result, ok, err}
use hotload.Text.{trim_space}

infixr 65 ◌+++◌
abbrev pub ◌+++◌ : String → String → String
s +++ t = String.◌++◌ s t

-- Go's regexp: MatchString of a pattern and a text, and the text of its errors.
pub record RegexpLib : Type 0 where
  pub match_string : String → String → Result Bool
  pub error_text : Error → String

-- The padding with empty lines, up to a length.
unfoldable pub pad : ℕ → List String → List String
pad zero lines = lines
pad (suc n) [] = "" ∷ pad n []
pad (suc n) (line ∷ lines) = line ∷ pad n lines

abbrev pub max_len : List String → List String → ℕ
max_len regexp_lines got_lines =
    if ltb (length regexp_lines) (length got_lines) then length got_lines else length regexp_lines

abbrev pub pattern_of : String → String
pattern_of line = "^" +++ trim_space line +++ "$"

abbrev pub difference : String → String → String
difference exp got = "-" +++ trim_space exp +++ "\n+" +++ trim_space got +++ "\n"

-- The loop over the lines, which have the same number, with what was written so far.
unfoldable pub diff_lines : RegexpLib → String → List String → List String → String
diff_lines rx buf [] gots = buf
diff_lines rx buf (exp ∷ exps) [] = buf
diff_lines rx buf (exp ∷ exps) (got ∷ gots) =
    elim (rx.match_string (pattern_of exp) (trim_space got)) [
      | err e ↦ rx.error_text e
      | ok true ↦ diff_lines rx buf exps gots
      | ok false ↦ diff_lines rx (buf +++ difference exp got) exps gots
    ]

unfoldable pub simple_regexp_line_diff : RegexpLib → List String → List String → String
unfolding pad diff_lines
simple_regexp_line_diff rx regexp_lines got_lines =
    let n = max_len regexp_lines got_lines in
    diff_lines rx "" (pad n regexp_lines) (pad n got_lines)

-- `strings.Split(s, "\n")`
unfoldable pub split_lines : String → List String
split_lines String.[] = "" ∷ []
split_lines (String.◌∷◌ c s) =
    let rest = split_lines s in
    if code c == 10
    then "" ∷ rest
    else elim rest [ [] ↦ [] | line ∷ lines ↦ String.◌∷◌ c line ∷ lines ]

-- `CollectAndRegexpCompare`, over what io.ReadAll and testutil.CollectAndFormat answer. A difference
-- is the text of the error that it returns.
pub data CompareError : Type 0 where
  failed : Error → CompareError
  differs : String → CompareError

unfoldable pub collect_and_regexp_compare :
    RegexpLib → Result String → Result String → Option CompareError
unfolding simple_regexp_line_diff split_lines trim_space
collect_and_regexp_compare rx (err e) collected = some (failed e)
collect_and_regexp_compare rx (ok expected) (err e) = some (failed e)
collect_and_regexp_compare rx (ok expected) (ok collected) =
    let diff = trim_space (
      simple_regexp_line_diff rx (split_lines (trim_space expected))
        (split_lines (trim_space collected))) in
    if str_eq diff "" then none else some (differs diff)
