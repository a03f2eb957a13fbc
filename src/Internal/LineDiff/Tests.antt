-- ===== src/Internal/LineDiff/Tests.antt =====
-- Patterns that are texts, over a matcher that compares them.
use hotload.Prelude.{◌≡◌, ◌≢◌, refl, [], ◌∷◌, str_eq}
use text.Mathlib.TextLemmas.{cons≢nil}
use hotload.State.{Error, ok}
use hotload.Text.{trim_space}
use hotload.Internal.LineDiff.{RegexpLib, ◌+++◌, simple_regexp_line_diff}

abbrev literal : RegexpLib
literal = record {
  match_string = λ pattern text. ok (str_eq pattern ("^" +++ text +++ "$"));
  error_text = λ e. "error parsing regexp";
}

has_text : (e : Error) → literal.error_text e ≢ ""
has_text e = cons≢nil

missing_line : simple_regexp_line_diff literal ("a" ∷ "b " ∷ []) ("a" ∷ []) ≡ "-b\n+\n"
unfolding simple_regexp_line_diff trim_space
missing_line = refl
