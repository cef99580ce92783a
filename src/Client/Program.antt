-- ===== src/Client/Program.antt =====
-- The program remctl (client/remctl.c) over the client library. What `getopt` finds, the options
-- with their arguments and the words behind them, is an input, and so is the name that
-- `getaddrinfo` gives for a host. Usage, version and warnings are left out of what is written.
pub mod Ends
pub mod Printed
pub mod Options
pub mod Tests
use remctl.Base.{
  ℕ, zero, suc, ◌+◌, ◌-◌, ◌%◌, Bool, true, false, ◌||◌, Option, none, some, List, [], ◌∷◌, ◌++◌,
  length, ltb, ◌==◌, min, if◌then◌else◌, Bytes,
}
use remctl.Base.Int.{ℤ, pos, negsuc}
use remctl.Server.Acl.Lines.{skip_space}
use remctl.Server.Config.{isdigit, digits, long_max}
use remctl.Client.V2.Output.{Output, output, status, error}
use remctl.Client.Session.{Error, World, Slot, finished, holds, Remctl, remctl_new}
use remctl.Client.Api.{
  remctl_open, remctl_command, remctl_output, remctl_close, remctl_set_timeout,
  remctl_set_source_ip,
}

unfoldable pub negative : ℕ → ℤ
negative zero = pos 0
negative (suc n) = negsuc n

-- `strtol` in base ten, with what is left behind the number; where there is no number, all is left.
unfoldable pub clip : Bool → ℕ × Bytes → ℤ × Bytes
unfolding negative
clip true (value, rest) = (negative (min value (long_max + 1)), rest)
clip false (value, rest) = (pos (min value long_max), rest)

unfoldable pub unsigned_number : Bytes → Bool → Bytes → ℤ × Bytes
unfolding clip digits isdigit
unsigned_number whole minus [] = (pos 0, whole)
unsigned_number whole minus (c ∷ string) =
    if isdigit c then clip minus (digits 0 (c ∷ string)) else (pos 0, whole)

unfoldable pub signed_number : Bytes → Bytes → ℤ × Bytes
unfolding unsigned_number
signed_number whole [] = (pos 0, whole)
signed_number whole (c ∷ string) =
    if c == b'-'
    then unsigned_number whole true string
    else if c == b'+'
    then unsigned_number whole false string
    else unsigned_number whole false (c ∷ string)

unfoldable pub strtol : Bytes → ℤ × Bytes
unfolding signed_number skip_space
strtol string = signed_number string (skip_space string)

-- Why the program dies.
pub data Fatal : Type 0 where
  invalid_port invalid_timeout : Fatal
  unresolved_host : Fatal
  library : Option Error → Fatal

-- How the program ends: with a value for `exit`, or in `die`.
pub data Ending : Type 0 where
  exits : ℤ → Ending
  dies : Fatal → Ending

-- What the caller sees of it: the low octet, and 1 for `die`.
unfoldable pub exit_status : Ending → ℕ
exit_status (exits (pos n)) = n % 256
exit_status (exits (negsuc n)) = 255 - n % 256
exit_status (dies fatal) = 1

-- What was written to standard output and to standard error.
pub record Console : Type 0 where
  pub stdout : Bytes
  pub stderr : Bytes

-- What the loop over the responses leaves.
pub record Response : Type 0 where
  pub ending : Ending
  pub console : Console
  pub session : Remctl

-- Output on a stream that is unknown goes to standard error.
unfoldable pub print_output : Console → ℕ → Bytes → Console
print_output console stream string =
    if stream == 1
    then record console { stdout = console.stdout ++ string }
    else record console { stderr = console.stderr ++ string }

unfoldable pub handle_response :
    (Console → Option Response) → Console → Remctl → Option Slot → Option Response
unfolding print_output
handle_response next console r none =
    some (record { ending = dies (library r.error); console = console; session = r })
handle_response next console r (some finished) =
    some (record { ending = exits (pos 0); console = console; session = r })
handle_response next console r (some (holds (output stream string))) =
    next (print_output console stream string)
handle_response next console r (some (holds (Output.error code string))) = some (record {
  ending = exits (pos 255);
  console = record console { stderr = console.stderr ++ string ++ 10 ∷ [] };
  session = r;
})
handle_response next console r (some (holds (status code))) =
    some (record { ending = exits code; console = console; session = r })

-- The loop of `process_response`, on fuel; `none` is a loop that ran out of it.
unfoldable pub responses : ℕ → Remctl → Console → Option Response
unfolding handle_response
responses zero r console = none
responses (suc fuel) r console =
    let (slot, r') = remctl_output r in
    handle_response (λ console'. responses fuel r' console') console r' slot

abbrev pub no_output : Console
no_output = record { stdout = []; stderr = [] }

-- Each output takes one of the tokens to come, so their number is fuel enough.
unfoldable pub process_response : Remctl → Option Response
unfolding responses
process_response r = responses (suc (length r.world.channel.incoming)) r no_output

-- The variables that the options set.
pub record Settings : Type 0 where
  pub source : Option Bytes
  pub service_name : Option Bytes
  pub timeout : ℤ
  pub port : ℕ

pub data Parsed : Type 0 where
  goes_on : Settings → Parsed
  stops : Ending → Parsed

unfoldable pub set_port : Settings → ℤ × Bytes → Parsed
set_port s (pos n, []) =
    if n == 0 || ltb 65535 n then stops (dies invalid_port) else goes_on (record s { port = n })
set_port s (n, rest) = stops (dies invalid_port)

unfoldable pub set_timeout : Settings → ℤ × Bytes → Parsed
set_timeout s (pos n, []) = goes_on (record s { timeout = pos n })
set_timeout s (n, rest) = stops (dies invalid_timeout)

-- One option; -d only sets where the library's debugging output goes.
unfoldable pub parse_option : Settings → ℕ → Bytes → Parsed
unfolding set_port set_timeout strtol
parse_option s option optarg =
    if option == b'b'
    then goes_on (record s { source = some optarg })
    else if option == b'd'
    then goes_on s
    else if option == b'h' || option == b'v'
    then stops (exits (pos 0))
    else if option == b'p'
    then set_port s (strtol optarg)
    else if option == b's'
    then goes_on (record s { service_name = some optarg })
    else if option == b't'
    then set_timeout s (strtol optarg)
    else stops (exits (pos 1))

unfoldable pub after_option : Parsed → (Settings → Parsed) → Parsed
after_option (goes_on s) next = next s
after_option (stops ending) next = stops ending

unfoldable pub parse_options : Settings → List (ℕ × Bytes) → Parsed
unfolding after_option parse_option
parse_options s [] = goes_on s
parse_options s ((option, optarg) ∷ options) =
    after_option (parse_option s option optarg) (λ s'. parse_options s' options)

abbrev pub default_settings : Settings
default_settings = record { source = none; service_name = none; timeout = pos 0; port = 0 }

-- How the program ends, what it wrote, and the world it leaves.
pub record Run : Type 0 where
  pub ending : Ending
  pub console : Console
  pub world : World

abbrev pub ended : Ending → World → Option Run
ended ending world = some (record { ending = ending; console = no_output; world = world })

-- `remctl_close`, behind a response that is not an error of the library.
unfoldable pub shut_down : Option Response → Option Run
shut_down none = none
shut_down (some response) = elim response.ending [
  | exits code ↦ some (record {
    ending = exits code;
    console = response.console;
    world = remctl_close response.session;
  })
  | dies fatal ↦
      some
        (record { ending = dies fatal; console = response.console; world = response.session.world })
]

unfoldable pub respond : Bool × Remctl → Option Run
unfolding shut_down process_response
respond (false, r) = ended (dies (library r.error)) r.world
respond (true, r) = shut_down (process_response r)

unfoldable pub send_command : List Bytes → Bool × Remctl → Option Run
unfolding respond
send_command command (false, r) = ended (dies (library r.error)) r.world
send_command command (true, r) = respond (remctl_command r command)

unfoldable pub open_connection : Settings → Bytes → List Bytes → Bool × Remctl → Option Run
unfolding send_command
open_connection s host command (false, r) = ended (dies (library r.error)) r.world
open_connection s host command (true, r) =
    send_command command (remctl_open r (some host) s.port s.service_name)

unfoldable pub set_source : Option Bytes → Remctl → Bool × Remctl
set_source none r = (true, r)
set_source (some source) r = remctl_set_source_ip r source

-- `timeout != 0`; the result of the call is not looked at.
unfoldable pub set_session_timeout : ℤ → Remctl → Remctl
set_session_timeout (pos zero) r = r
set_session_timeout timeout r = (remctl_set_timeout r timeout).1

unfoldable pub run_command : World → Settings → List Bytes → Option Bytes → Option Run
unfolding open_connection set_source set_session_timeout
run_command world s command none = ended (dies unresolved_host) world
run_command world s command (some host) =
    open_connection s host command
      (set_source s.source (set_session_timeout s.timeout (remctl_new world)))

-- Without a service the host is called by its canonical name.
unfoldable pub host_name : (Bytes → Option Bytes) → Option Bytes → Bytes → Option Bytes
host_name canonical none host = canonical host
host_name canonical (some service) host = some host

unfoldable pub with_arguments : (Bytes → Option Bytes) → World → Settings → List Bytes → Option Run
unfolding run_command host_name
with_arguments canonical world s (host ∷ word ∷ words) =
    run_command world s (word ∷ words) (host_name canonical s.service_name host)
with_arguments canonical world s short = ended (exits (pos 1)) world

unfoldable pub parsed_options : (Bytes → Option Bytes) → World → List Bytes → Parsed → Option Run
unfolding with_arguments
parsed_options canonical world argv (goes_on s) = with_arguments canonical world s argv
parsed_options canonical world argv (stops ending) = ended ending world

unfoldable pub main : (Bytes → Option Bytes) → World → List (ℕ × Bytes) → List Bytes → Option Run
unfolding parsed_options parse_options
main canonical world options argv =
    parsed_options canonical world argv (parse_options default_settings options)
