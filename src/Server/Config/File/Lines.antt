-- ===== src/Server/Config/File/Lines.antt =====
-- The lines of a file, apart from how `read_conf_file` buffers them: the physical lines, each with
-- its newline, and the logical lines that are put together from them.
use remctl.Base.{
  ℕ, ◌+◌, ◌-◌, ◌&&◌, Option, none, some, List, [], ◌∷◌, ◌++◌, take, length, ltb, ◌==◌,
  if◌then◌else◌, Bytes,
}
use remctl.Server.Config.File.{is_partial, is_unfinished}

-- The end of the lines, a line that is an error, or a line with its number and the lines behind it.
pub data Lines : Type 0 where
  no_line broken_off : Lines
  numbered : ℕ → Bytes → Lines → Lines

unfoldable pub glue : ℕ → List Bytes → List Bytes
glue c [] = (c ∷ []) ∷ []
glue c (string ∷ strings) = (c ∷ string) ∷ strings

unfoldable pub physical : Bytes → List Bytes
unfolding glue
physical [] = []
physical (c ∷ content) =
    let rest = physical content in if c == 10 then (c ∷ []) ∷ rest else glue c rest

-- A line, and what the lines behind it give if it goes on, or if it ends.
unfoldable pub joined : (Option Bytes → ℕ → Lines) → Bytes → ℕ → Lines
unfolding is_unfinished is_partial
joined rest string lineno =
    if is_unfinished string
    then (if is_partial string
        then broken_off
        else rest (some (take (length string - 2) string)) (lineno + 1))
    else numbered (lineno + 1) (take (length string - 1) string) (rest none (lineno + 1))

-- A line of one octet is not counted; a last line of two octets needs its newline.
unfoldable pub fresh : (Option Bytes → ℕ → Lines) → Bytes → ℕ → Lines
unfolding joined
fresh rest string lineno =
    if length string == 2 && is_partial string
    then broken_off
    else if ltb (length string) 2
    then rest none lineno
    else joined rest string lineno

-- The logical lines, behind the start of one that goes on.
unfoldable pub logical : List Bytes → Option Bytes → ℕ → Lines
unfolding fresh
logical [] none lineno = no_line
logical [] (some start) lineno = broken_off
logical (string ∷ strings) none lineno = fresh (logical strings) string lineno
logical (string ∷ strings) (some start) lineno = joined (logical strings) (start ++ string) lineno

-- The physical lines of `piece`, which has no newline, and what follows it.
unfoldable pub extend : Bytes → List Bytes → List Bytes
extend piece [] = piece ∷ []
extend piece (string ∷ strings) = (piece ++ string) ∷ strings
