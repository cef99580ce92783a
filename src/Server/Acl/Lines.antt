-- ===== src/Server/Acl/Lines.antt =====
-- What a line of an ACL file asks for (the loop of `acl_check_file_internal` of server/config.c), and
-- the names of the schemes.
use remctl.Base.{
  ℕ, ◌-◌, Bool, true, false, ◌&&◌, ◌||◌, Option, none, some, List, [], ◌∷◌, length, leb, same, ◌==◌,
  if◌then◌else◌, Bytes, codes,
}
use remctl.Util.Vector.{vector_split_space}

pub data Scheme : Type 0 where
  file princ anyuser deny gput localgroup pcre regex : Scheme

-- `isspace` of the C locale.
unfoldable pub isspace : ℕ → Bool
isspace c = c == 32 || (leb 9 c && leb c 13)

-- Without the white space at the end.
unfoldable pub strip_end : Bytes → Bytes
unfolding isspace
strip_end [] = []
strip_end (c ∷ string) = elim (strip_end string) [
  | [] ↦ if isspace c then [] else c ∷ []
  | d ∷ rest ↦ c ∷ d ∷ rest
]

-- The loop stops at the first octet of the buffer, also if that is white space.
unfoldable pub trim_end : Bytes → Bytes
unfolding strip_end
trim_end [] = []
trim_end (c ∷ string) = c ∷ strip_end string

unfoldable pub skip_space : Bytes → Bytes
unfolding isspace
skip_space [] = []
skip_space (c ∷ string) = if isspace c then skip_space string else c ∷ string

-- `*p == '\0' || *p == '#'`.
unfoldable pub is_comment : Bytes → Bool
is_comment [] = true
is_comment (c ∷ string) = c == b'#'

unfoldable pub has_octet : ℕ → Bytes → Bool
has_octet wanted [] = false
has_octet wanted (c ∷ string) = c == wanted || has_octet wanted string

-- A line that is skipped, one that is an error, or an entry with its default scheme.
pub data Line : Type 0 where
  skipped malformed : Line
  acl_entry : Bytes → Scheme → Line

unfoldable pub include_line : List Bytes → Line
include_line (word ∷ name ∷ []) =
    if same word (codes "include") then acl_entry name file else malformed
include_line words = malformed

unfoldable pub parse_line : ℕ → Bytes → Line
unfolding trim_end skip_space is_comment has_octet include_line vector_split_space
parse_line bufsiz string =
    let buffer = trim_end string in
    let p = skip_space buffer in
    if leb (bufsiz - 1) (length string)
    then malformed
    else if is_comment p
    then skipped
    else if has_octet b' ' p
    then include_line (vector_split_space buffer)
    else acl_entry p princ

-- `strchr`: what is before the first octet `wanted`, and what is behind it.
unfoldable pub break_at : ℕ → Bytes → Option (Bytes × Bytes)
break_at wanted [] = none
break_at wanted (c ∷ string) =
    let rest = break_at wanted string in
    if c == wanted
    then some ([], string)
    else elim rest [ none ↦ none | some parts ↦ some (c ∷ parts.0, parts.1) ]

-- The table of the schemes.
abbrev pub schemes : List (Bytes × Scheme)
schemes =
    (codes "file", file)
    ∷ (codes "princ", princ)
    ∷ (codes "anyuser", anyuser)
    ∷ (codes "deny", deny)
    ∷ (codes "gput", gput)
    ∷ (codes "localgroup", localgroup)
    ∷ (codes "pcre", pcre)
    ∷ (codes "regex", regex)
    ∷ []

unfoldable pub find_scheme : Bytes → List (Bytes × Scheme) → Option Scheme
find_scheme prefix [] = none
find_scheme prefix ((name, scheme) ∷ rest) =
    if same prefix name then some scheme else find_scheme prefix rest
