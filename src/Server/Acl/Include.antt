-- ===== src/Server/Acl/Include.antt =====
-- `valid_filename` and `handle_include` of server/config.c.
use remctl.Base.{
  ℕ, Bool, true, not, ◌&&◌, ◌||◌, Option, none, some, List, [], ◌∷◌, ◌++◌, leb, same, ◌==◌,
  if◌then◌else◌, Bytes,
}
use remctl.Server.Acl.{
  Status, success, nomatch, error, deny, Answer, decided, spent, Kind, regular, directory, System,
}

unfoldable pub is_valid_octet : ℕ → Bool
is_valid_octet c =
    (leb 65 c && leb c 90)
    || (leb 97 c && leb c 122)
    || (leb 48 c && leb c 57)
    || c == b'_'
    || c == b'-'

unfoldable pub valid_filename : Bytes → Bool
unfolding is_valid_octet
valid_filename [] = true
valid_filename (c ∷ filename) = is_valid_octet c && valid_filename filename

-- What follows the call for one file: an error or a denial ends the loop, and otherwise the greater
-- of the statuses is kept.
unfoldable pub keep_status : Answer → Status → (Status → Answer) → Answer
keep_status (decided success) status rest = rest success
keep_status (decided nomatch) status rest = rest status
keep_status (decided error) status rest = decided error
keep_status (decided deny) status rest = decided deny
keep_status spent status rest = spent

-- The loop over the names of a directory.
unfoldable pub include_all : (Bytes → Answer) → Bytes → List Bytes → Status → Answer
unfolding valid_filename keep_status
include_all function included [] status = decided status
include_all function included (name ∷ names) status =
    if not (valid_filename name)
    then include_all function included names status
    else keep_status (function (included ++ b'/' ∷ name)) status
        (include_all function included names)

unfoldable pub include_kind : (Bytes → Answer) → Bytes → Option Kind → Answer
unfolding include_all
include_kind function included none = decided error
include_kind function included (some regular) = function included
include_kind function included (some (directory none)) = decided error
include_kind function included (some (directory (some names))) =
    include_all function included names nomatch

unfoldable pub handle_include : System → Bytes → Bytes → (Bytes → Answer) → Answer
unfolding include_kind
handle_include system included file function =
    if same included file
    then decided error
    else include_kind function included (system.stat included)
