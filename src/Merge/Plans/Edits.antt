-- ===== src/Merge/Plans/Edits.antt =====
-- What a plan's edit leaves in the text.
use obsync.Base.{
  ℕ, zero, suc, ◌+◌, ◌-◌, ◌≤◌, ◌≡◌, ap, ◌∙◌, Bool, ◌&&◌, List, [], ◌∷◌, ◌++◌, Text, length, take,
  drop, ◌==◌, if◌then◌else◌, arith, length-append, append_assoc, length-take, take-length_append,
  drop-length_append,
}
use obsync.Merge.Build.{Span, slice, join_lines}
use obsync.Merge.Plans.{LineDoc, replace_lines}

-- The text after an edit.
abbrev pub edited : Text → ℕ → ℕ → Text → Text
edited text from to insert = take from text ++ (insert ++ drop to text)

drop-plus : (xs ys : Text) (n k : ℕ) → k ≡ length xs + n → drop k (xs ++ ys) ≡ drop n ys
drop-plus [] ys n k e = ap (λ i. drop i ys) (omega (arith, e))
drop-plus (x ∷ xs) ys n zero e = absurd (omega (arith, e))
drop-plus (x ∷ xs) ys n (suc k) e = drop-plus xs ys n k (omega (arith, e))

slice-inserted :
    (xs p ys zs : Text) (n : ℕ)
    → n ≡ length xs
    → slice (n + length p) (n + length (p ++ ys)) (xs ++ ((p ++ ys) ++ zs)) ≡ ys
slice-inserted xs p ys zs n e =
    let width : (n + length (p ++ ys)) - (n + length p) ≡ length ys =
      omega (arith, length-append p ys) in
    rw width (
      ap (λ t. take (length ys) t)
        (drop-plus xs ((p ++ ys) ++ zs) (length p) (n + length p) (omega (arith, e))
          ∙ (ap (drop (length p)) (append_assoc p ys zs) ∙ drop-length_append p (ys ++ zs)))
      ∙ take-length_append ys zs)

-- The lines that an edit puts in stand in its result, whole: read there, the new text has the lines, joined by newlines, with a newline after the last unless the edit ends the document.
pub replace_lines-result :
    (doc : LineDoc) (target : Span) (line : Text) (lines : List Text) (ends_at_eof after : Bool)
    (text : Text)
    → target.from ≤ length text
    → let e = replace_lines doc target (line ∷ lines) ends_at_eof after in
      slice e.result.from e.result.to (edited text e.from e.to e.insert)
      ≡ join_lines (line ∷ lines) ++ (if ends_at_eof && target.to == doc.size then [] else 10 ∷ [])
unfolding replace_lines
replace_lines-result doc target line lines ends_at_eof after text h =
    slice-inserted (take target.from text) _ _ (drop target.to text) target.from
      (omega (arith, length-take target.from text, h))
