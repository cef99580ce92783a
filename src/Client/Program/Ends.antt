-- ===== src/Client/Program/Ends.antt =====
-- The program remctl ends.
use remctl.Base.{
  ℕ, zero, suc, ◌<◌, ◌≡◌, refl, Bool, true, false, Option, none, some, List, [], ◌∷◌, Bytes, arith,
}
use remctl.Client.V2.Output.{output, status, error}
use remctl.Client.Session.{World, Slot, finished, holds, Remctl}
use remctl.Client.Api.{remctl_command, remctl_output}
use remctl.Client.Simple.Ends.{to_come, Takes, remctl_output-Takes}
use remctl.Client.Program.{
  Ending, exits, dies, Console, Response, handle_response, responses, process_response, Settings,
  Parsed, goes_on, stops, Run, shut_down, respond, send_command, open_connection, run_command,
  with_arguments, host_name, parsed_options, main,
}

-- There is a result.
abbrev Returns {ℓ} : {A : Type ℓ} → Option A → Type 0
Returns none = ⊥
Returns (some a) = Unit {0}

handle_response-Returns :
    (n : ℕ) (next : Console → Option Response) (console : Console) (r : Remctl) (slot : Option Slot)
    → Takes n (slot, r)
    → (to_come r < n → (console' : Console) → Returns (next console'))
    → Returns (handle_response next console r slot)
unfolding handle_response
handle_response-Returns n next console r none h k = tt
handle_response-Returns n next console r (some finished) h k = tt
handle_response-Returns n next console r (some (holds (output stream string))) h k = k h _
handle_response-Returns n next console r (some (holds (status code))) h k = tt
handle_response-Returns n next console r (some (holds (error code string))) h k = tt

responses-Returns :
    (fuel : ℕ) (r : Remctl) (console : Console)
    → to_come r < fuel
    → Returns (responses fuel r console)
unfolding responses
responses-Returns zero r console h = absurd (omega arith)
responses-Returns (suc fuel) r console h =
    handle_response-Returns (to_come r) (responses fuel (remctl_output r).1) console
      (remctl_output r).1 (remctl_output r).0 (remctl_output-Takes r)
      (λ less console'. responses-Returns fuel (remctl_output r).1 console' (omega arith))

ending-Returns :
    (ending : Ending) (console : Console) (session : Remctl)
    → Returns (shut_down (some (record { ending = ending; console = console; session = session })))
unfolding shut_down
ending-Returns (exits code) console session = tt
ending-Returns (dies fatal) console session = tt

shut_down-Returns : (o : Option Response) → Returns o → Returns (shut_down o)
unfolding shut_down
shut_down-Returns none h = absurd h
shut_down-Returns (some response) h =
    ending-Returns response.ending response.console response.session

respond-Returns : (sent : Bool × Remctl) → Returns (respond sent)
unfolding respond process_response
respond-Returns (false, r) = tt
respond-Returns (true, r) =
    shut_down-Returns _ (responses-Returns (suc (to_come r)) r _ (omega arith))

send_command-Returns :
    (command : List Bytes) (opened : Bool × Remctl) → Returns (send_command command opened)
unfolding send_command
send_command-Returns command (false, r) = tt
send_command-Returns command (true, r) = respond-Returns (remctl_command r command)

open_connection-Returns :
    (s : Settings) (host : Bytes) (command : List Bytes) (set : Bool × Remctl)
    → Returns (open_connection s host command set)
unfolding open_connection
open_connection-Returns s host command (false, r) = tt
open_connection-Returns s host command (true, r) = send_command-Returns command _

run_command-Returns :
    (world : World) (s : Settings) (command : List Bytes) (host : Option Bytes)
    → Returns (run_command world s command host)
unfolding run_command
run_command-Returns world s command none = tt
run_command-Returns world s command (some host) = open_connection-Returns s host command _

with_arguments-Returns :
    (canonical : Bytes → Option Bytes) (world : World) (s : Settings) (argv : List Bytes)
    → Returns (with_arguments canonical world s argv)
unfolding with_arguments
with_arguments-Returns canonical world s [] = tt
with_arguments-Returns canonical world s (host ∷ []) = tt
with_arguments-Returns canonical world s (host ∷ word ∷ words) =
    run_command-Returns world s (word ∷ words) (host_name canonical s.service_name host)

parsed_options-Returns :
    (canonical : Bytes → Option Bytes) (world : World) (argv : List Bytes) (parsed : Parsed)
    → Returns (parsed_options canonical world argv parsed)
unfolding parsed_options
parsed_options-Returns canonical world argv (goes_on s) =
    with_arguments-Returns canonical world s argv
parsed_options-Returns canonical world argv (stops ending) = tt

run_of : (o : Option Run) → Returns o → (run : Run) × (o ≡ some run)
run_of none h = absurd h
run_of (some run) h = (run, refl)

-- Whatever the options and arguments of the program remctl are, whatever the network and GSS-API
-- answer, and whatever finite sequence of tokens the server sends before nothing more is received,
-- the program comes to an end.
pub main_returns :
    (canonical : Bytes → Option Bytes) (world : World) (options : List (ℕ × Bytes))
    (argv : List Bytes)
    → (run : Run) × (main canonical world options argv ≡ some run)
unfolding main
main_returns canonical world options argv = run_of _ (parsed_options-Returns canonical world argv _)
