-- ===== src/Internal/LineDiff/Matching.antt =====
-- When a text has no difference.
use hotload.Prelude.{
  ℕ, zero, suc, ◌≡◌, ◌≢◌, refl, String, Bool, true, false, ◌↔◌, List, [], ◌∷◌, arith,
}
use text.Mathlib.TextLemmas.{append-eq-nil_iff, cons≢nil}
use hotload.State.{Error, Result, ok, err}
use hotload.Text.{trim_space}
use hotload.Internal.LineDiff.{
  RegexpLib, pad, max_len, pattern_of, difference, diff_lines, simple_regexp_line_diff, ◌+++◌,
}

-- Line by line, the text matches the whole of the pattern; a missing line is empty.
abbrev pub Matches : RegexpLib → List String → List String → Type 0
Matches rx [] [] = Unit
Matches rx [] (got ∷ gots) =
    (rx.match_string (pattern_of "") (trim_space got) ≡ ok true) × Matches rx [] gots
Matches rx (exp ∷ exps) [] =
    (rx.match_string (pattern_of exp) (trim_space "") ≡ ok true) × Matches rx exps []
Matches rx (exp ∷ exps) (got ∷ gots) =
    (rx.match_string (pattern_of exp) (trim_space got) ≡ ok true) × Matches rx exps gots

-- One round of the loop, before the rest of it.
abbrev round : RegexpLib → Result Bool → (String → String) → String → String → String → String
round rx (err e) after buf exp got = rx.error_text e
round rx (ok true) after buf exp got = after buf
round rx (ok false) after buf exp got = after (buf +++ difference exp got)

append-ne : (buf exp got : String) → buf +++ difference exp got ≢ ""
append-ne buf exp got e =
    let h = (append-eq-nil_iff.0 e).1 in
    let k : ◌≡◌ {A = String} "-" "" = (append-eq-nil_iff.0 h).0 in cons≢nil k

round_iff :
    (rx : RegexpLib) (m : Result Bool) (after : String → String) (M : Type 0) (buf exp got : String)
    → ((e : Error) → rx.error_text e ≢ "")
    → ((b : String) → (after b ≡ "") ↔ ((b ≡ "") × M))
    → (round rx m after buf exp got ≡ "") ↔ ((buf ≡ "") × ((m ≡ ok true) × M))
round_iff rx (err e) after M buf exp got n k = (λ h. absurd (n e h), λ (b, (h, r)). absurd (cc))
round_iff rx (ok true) after M buf exp got n k =
    (λ h. (((k buf).0 h).0, (refl, ((k buf).0 h).1)), λ (b, (h, r)). (k buf).1 (b, r))
round_iff rx (ok false) after M buf exp got n k = (
  λ h. absurd (append-ne buf exp got ((k (buf +++ difference exp got)).0 h).0),
  λ (b, (h, r)). absurd (cc),
)

diff_lines-round :
    (rx : RegexpLib) (buf exp got : String) (exps gots : List String)
    → diff_lines rx buf (exp ∷ exps) (got ∷ gots)
      ≡ round rx
          (rx.match_string (pattern_of exp) (trim_space got))
          (λ b. diff_lines rx b exps gots)
          buf
          exp
          got
unfolding diff_lines
diff_lines-round rx buf exp got exps gots = ground arith

no_lines :
    (rx : RegexpLib) (buf : String) → (diff_lines rx buf [] [] ≡ "") ↔ ((buf ≡ "") × Unit {0})
unfolding diff_lines
no_lines rx buf = (λ e. (e, tt), λ (e, u). e)

diff_lines_iff :
    (rx : RegexpLib) (n : ℕ) (exps gots : List String) (buf : String)
    → ((e : Error) → rx.error_text e ≢ "")
    → n ≡ max_len exps gots
    → (diff_lines rx buf (pad n exps) (pad n gots) ≡ "") ↔ ((buf ≡ "") × Matches rx exps gots)
unfolding pad
diff_lines_iff rx zero [] [] buf h e = no_lines rx buf
diff_lines_iff rx zero [] (g ∷ gs) buf h e = absurd (ground arith)
diff_lines_iff rx zero (x ∷ xs) gs buf h e = absurd (ground arith)
diff_lines_iff rx (suc n) [] [] buf h e = absurd (ground arith)
diff_lines_iff rx (suc n) [] (g ∷ gs) buf h e =
    rw (diff_lines-round rx buf "" g (pad n []) (pad n gs))
      (round_iff rx _ _ _ buf "" g h (λ b. diff_lines_iff rx n [] gs b h (ground arith)))
diff_lines_iff rx (suc n) (x ∷ xs) [] buf h e =
    rw (diff_lines-round rx buf x "" (pad n xs) (pad n []))
      (round_iff rx _ _ _ buf x "" h (λ b. diff_lines_iff rx n xs [] b h (ground arith)))
diff_lines_iff rx (suc n) (x ∷ xs) (g ∷ gs) buf h e =
    rw (diff_lines-round rx buf x g (pad n xs) (pad n gs))
      (round_iff rx _ _ _ buf x g h (λ b. diff_lines_iff rx n xs gs b h (ground arith)))

-- If no error of regexp has an empty text, the difference is empty exactly when every line of the
-- longer list matches, a missing line being empty, and no pattern is refused.
pub simple_regexp_line_diff-empty :
    (rx : RegexpLib) (exps gots : List String)
    → ((e : Error) → rx.error_text e ≢ "")
    → (simple_regexp_line_diff rx exps gots ≡ "") ↔ Matches rx exps gots
unfolding simple_regexp_line_diff
simple_regexp_line_diff-empty rx exps gots h =
    let k = diff_lines_iff rx (max_len exps gots) exps gots "" h refl in
    (λ e. (k.0 e).1, λ m. k.1 (refl, m))
