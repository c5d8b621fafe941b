-- ===== src/Sentinel/Lines.antt =====
-- cmd/sentinel/main.go, `readLines`: the input as lines.
pub mod Whole
use cold_harbour.Common.{
  ℕ, Bool, true, false, ◌&&◌, ◌||◌, List, [], ◌∷◌, ◌++◌, Text, codes, if◌then◌else◌, ◌==◌,
}
use cold_harbour.Worker.Stream.{is_blank}

-- `strings.TrimRight` with the cutset "\r\n".
unfoldable pub trim_right : Text → Text
trim_right [] = []
trim_right (c ∷ cs) =
    let rest = trim_right cs in if (c == 13 || c == 10) && is_blank rest then [] else c ∷ rest

-- What `ReadString` gives: a text and a newline; a text without one, with `io.EOF`; one with another
-- error.
pub data Read : Type 0 where
  to_newline at_end read_failed : Text → Read

-- How the loop stops: no read is left; the end of the input; an error.
pub data Stop : Type 0 where
  waiting ended broken : Stop

abbrev pub with_line : Text → Bool → List Text × Stop → List Text × Stop
with_line line true (lines, stop) = (line ∷ lines, stop)
with_line line false rest = (line ∷ [], broken)

-- The end of the input, when it is not followed.
abbrev pub last_line : (Text → Bool) → Text → List Text × Stop
last_line takes [] = ([], ended)
last_line takes (c ∷ cs) = ((c ∷ cs) ∷ [], if takes (c ∷ cs) then ended else broken)

-- `readLines`: the lines given to `fn`, and how the loop stops. `takes` says whether `fn` returns without
-- an error.
unfoldable pub read_lines : (Text → Bool) → Bool → Text → List Read → List Text × Stop
unfolding trim_right
read_lines takes follow pending [] = ([], waiting)
read_lines takes follow pending (to_newline t ∷ reads) =
    let line = trim_right (pending ++ (t ++ 10 ∷ [])) in
    with_line line (takes line) (read_lines takes follow [] reads)
read_lines takes true pending (at_end t ∷ reads) = read_lines takes true (pending ++ t) reads
read_lines takes false pending (at_end t ∷ reads) = last_line takes (pending ++ t)
read_lines takes follow pending (read_failed t ∷ reads) = ([], broken)
