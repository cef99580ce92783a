-- ===== src/Server/Log.antt =====
-- `server_log_command` of server/logging.c. `char` is signed, so that an octet from 128 on is less
-- than 9.
pub mod Hidden
pub mod Tests
use remctl.Base.{
  ℕ, zero, suc, ◌+◌, ◌≡◌, ◌≢◌, Bool, true, false, not, ◌&&◌, ◌||◌, Option, none, some, List, [],
  ◌∷◌, ◌++◌, map, leb, ltb, ◌==◌, if◌then◌else◌, Bytes, codes,
}
use remctl.Util.Vector.{vector_join}
use remctl.Server.Rule.{Rule, StdinArg, last, position}
use remctl.Server.Commands.Argv.{xstrndup}
use remctl.Server.Commands.Nuls.{is_last}

-- The loop over the log mask, which a zero ends.
unfoldable pub in_logmask : List ℕ → ℕ → Bool
in_logmask [] i = false
in_logmask (j ∷ logmask) i = if j == 0 then false else if j == i then true else in_logmask logmask i

-- Whether the argument at index `i`, with those behind it, goes to standard input.
unfoldable pub is_stdin : StdinArg → ℕ → List Bytes → Bool
unfolding is_last
is_stdin last i behind = ltb 0 i && is_last behind
is_stdin (position k) i behind = ltb 0 i && k == i

unfoldable pub logged_arg : Option Rule → ℕ → Bytes → List Bytes → Bytes
unfolding in_logmask is_stdin xstrndup
logged_arg none i arg behind = xstrndup arg
logged_arg (some rule) i arg behind =
    if is_stdin rule.stdin_arg i behind
    then codes "**DATA**"
    else if in_logmask rule.logmask i
    then codes "**MASKED**"
    else xstrndup arg

-- The loop over the arguments.
unfoldable pub logged_args : Option Rule → ℕ → List Bytes → List Bytes
unfolding logged_arg
logged_args rule i [] = []
logged_args rule i (arg ∷ argv) = logged_arg rule i arg argv ∷ logged_args rule (i + 1) argv

-- "Replace non-printable characters with . when logging."
unfoldable pub printable : ℕ → ℕ
printable c = if leb 128 c || ltb c 9 || (ltb 9 c && ltb c 32) || c == 127 then b'.' else c

unfoldable pub logged_command : List Bytes → Option Rule → Bytes
unfolding logged_args printable vector_join
logged_command argv rule = map printable (vector_join (logged_args rule 0 argv) (codes " "))

-- The text of the notice.
unfoldable pub server_log_command : List Bytes → Option Rule → Bytes → Bytes
unfolding logged_command
server_log_command argv rule user =
    codes "COMMAND from " ++ user ++ codes ": " ++ logged_command argv rule
