-- ===== src/Sentinel/Lines/Whole.antt =====
-- However the input comes in pieces, the lines are those of the whole.
use cold_harbour.Common.{
  ℕ, ◌≡◌, ◌≢◌, refl, sym, ap, ◌∙◌, true, false, List, [], ◌∷◌, ◌++◌, Text, All, map, append_assoc,
  append-nil, if◌then◌else◌, ◌==◌, arith,
}
use cold_harbour.Sentinel.Lines.{
  trim_right, Read, to_newline, at_end, read_failed, ended, last_line, read_lines,
}

-- The texts that newlines end.
unfoldable pub complete_lines : Text → Text → List Text
complete_lines line [] = []
complete_lines line (c ∷ cs) =
    if c == 10 then line ∷ complete_lines [] cs else complete_lines (line ++ c ∷ []) cs

-- And what is left behind the last newline.
unfoldable pub left_over : Text → Text → Text
left_over line [] = line
left_over line (c ∷ cs) = if c == 10 then left_over [] cs else left_over (line ++ c ∷ []) cs

-- The bytes that were read, up to an error.
unfoldable pub content : List Read → Text
content [] = []
content (to_newline t ∷ reads) = t ++ 10 ∷ content reads
content (at_end t ∷ reads) = t ++ content reads
content (read_failed t ∷ reads) = []

abbrev pub NoNewline : Text → Type 0
NoNewline t = All (λ c. c ≢ 10) t

abbrev pub IsRead : Read → Type 0
IsRead (to_newline t) = NoNewline t
IsRead (at_end t) = NoNewline t
IsRead (read_failed t) = NoNewline t

trim_right-newline : (t : Text) → trim_right (t ++ 10 ∷ []) ≡ trim_right t
unfolding trim_right
trim_right-newline [] = refl
trim_right-newline (c ∷ cs) = rw (trim_right-newline cs)

is_newline-false : (c : ℕ) → c ≢ 10 → (c == 10) ≡ false
is_newline-false c h = ground arith

complete_lines-append :
    (line t rest : Text)
    → NoNewline t
    → complete_lines line (t ++ rest) ≡ complete_lines (line ++ t) rest
unfolding complete_lines
complete_lines-append line [] rest h = ap (λ l. complete_lines l rest) (sym (append-nil line))
complete_lines-append line (c ∷ cs) rest h = rw (is_newline-false c h.0) (
    complete_lines-append (line ++ c ∷ []) cs rest h.1
    ∙ ap (λ l. complete_lines l rest) (append_assoc line (c ∷ []) cs))

left_over-append :
    (line t rest : Text) → NoNewline t → left_over line (t ++ rest) ≡ left_over (line ++ t) rest
unfolding left_over
left_over-append line [] rest h = ap (λ l. left_over l rest) (sym (append-nil line))
left_over-append line (c ∷ cs) rest h = rw (is_newline-false c h.0) (
    left_over-append (line ++ c ∷ []) cs rest h.1
    ∙ ap (λ l. left_over l rest) (append_assoc line (c ∷ []) cs))

-- A followed input, of which any part may come at any time: the lines given to `fn` are the texts that
-- newlines end, without the carriage returns and newlines at their ends, when `fn` takes every line.
pub read_lines-follow :
    (reads : List Read) (pending : Text)
    → All IsRead reads
    → (read_lines (λ l. true) true pending reads).0
      ≡ map trim_right (complete_lines pending (content reads))
unfolding read_lines content complete_lines
read_lines-follow [] pending h = refl
read_lines-follow (to_newline t ∷ reads) pending h = rw (
  complete_lines-append pending t (10 ∷ content reads) h.0,
  sym (append_assoc pending t (10 ∷ [])),
  trim_right-newline (pending ++ t),
  read_lines-follow reads [] h.1,
)
read_lines-follow (at_end t ∷ reads) pending h =
    read_lines-follow reads (pending ++ t) h.1
    ∙ ap (map trim_right) (sym (complete_lines-append pending t (content reads) h.0))
read_lines-follow (read_failed t ∷ reads) pending h = refl

abbrev pub if_any : Text → List Text
if_any [] = []
if_any (c ∷ cs) = (c ∷ cs) ∷ []

last_line-if_any : (t : Text) → last_line (λ l. true) t ≡ (if_any t, ended)
last_line-if_any [] = refl
last_line-if_any (c ∷ cs) = refl

-- An input that is not followed and whose reads end with the end of the file: `readLines` returns without
-- an error, and the lines given to `fn` are the texts that newlines end, without the carriage returns and
-- newlines at their ends, and then what is left behind the last newline, as it is, if it is not empty,
-- when `fn` takes every line.
pub read_lines-once :
    (ts : List Text) (t : Text) (after : List Read) (pending : Text)
    → All NoNewline ts
    → NoNewline t
    → let whole = content (map to_newline ts ++ at_end t ∷ []) in
      read_lines (λ l. true) false pending (map to_newline ts ++ at_end t ∷ after)
      ≡ (map trim_right (complete_lines pending whole) ++ if_any (left_over pending whole), ended)
unfolding read_lines content complete_lines left_over
read_lines-once [] t after pending h g =
    rw (complete_lines-append pending t [] g, left_over-append pending t [] g)
      (last_line-if_any (pending ++ t))
read_lines-once (s ∷ ts) t after pending h g =
    let whole = content (map to_newline ts ++ at_end t ∷ []) in
    rw (
      complete_lines-append pending s (10 ∷ whole) h.0,
      left_over-append pending s (10 ∷ whole) h.0,
      sym (append_assoc pending s (10 ∷ [])),
      trim_right-newline (pending ++ s),
      read_lines-once ts t after [] h.1 g,
    )
