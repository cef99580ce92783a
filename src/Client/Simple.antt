-- ===== src/Client/Simple.antt =====
-- The simplified interface (client/api.c): `remctl` and what it puts together.
pub mod Ends
pub mod Collected
use remctl.Base.{
  ℕ, zero, suc, ◌++◌, [], ◌∷◌, Bool, true, false, Option, none, some, List, length, ◌==◌,
  if◌then◌else◌, Bytes,
}
use remctl.Base.Int.{ℤ, pos}
use remctl.Server.Commands.Argv.{xstrndup}
use remctl.Client.V2.Output.{Output, output, status, error}
use remctl.Client.Session.{Error, World, Slot, finished, holds, Remctl, remctl_new}
use remctl.Client.Api.{remctl_open, remctl_command, remctl_output, remctl_close}

-- The text of `result->error`: the server's message, the session's error ("no error" where there is
-- none), the two messages of `internal_output_append`, and a text that a message was appended to.
pub data Message : Type 0 where
  server : Bytes → Message
  library : Option Error → Message
  bad_stream : ℕ → Message
  bad_type : Message
  joined : Message → Bytes → Message

-- `struct remctl_result`.
pub record Result : Type 0 where
  pub error : Option Message
  pub stdout : Bytes
  pub stderr : Bytes
  pub status : ℤ

abbrev pub empty_result : Result
empty_result = record { error = none; stdout = []; stderr = []; status = pos 0 }

-- The old text ends at its first nul.
unfoldable pub append_message : Option Message → Bytes → Message
append_message none string = server string
append_message (some (server old)) string = server (xstrndup old ++ string)
append_message (some other) string = joined other string

unfoldable pub append_stream : ℕ → Bytes → Result → Bool × Result
append_stream stream string result =
    if stream == 1
    then (true, record result { stdout = result.stdout ++ string })
    else if stream == 2
    then (true, record result { stderr = result.stderr ++ string })
    else (false, record result { error = some (bad_stream stream) })

unfoldable pub internal_output_append : Result → Slot → Bool × Result
unfolding append_stream append_message
internal_output_append result (holds (Output.error code string)) =
    (true, record result { error = some (append_message result.error string) })
internal_output_append result (holds (output stream string)) = append_stream stream string result
internal_output_append result other = (false, record result { error = some bad_type })

-- The session's error goes into the result, and the session is closed.
unfoldable pub internal_fail : Remctl → Result → Result × World
internal_fail r result = (record result { error = some (library r.error) }, remctl_close r)

-- What follows an output that was appended: the next round, or what the function returns.
unfoldable pub after_append :
    (Result → Option (Result × World)) → Remctl → Bool × Result → Option (Result × World)
after_append next r (true, result) = next result
after_append next r (false, result) = some (result, r.world)

-- One round of the loop, behind the call of `remctl_output`.
unfoldable pub handle_slot :
    (Result → Option (Result × World)) → Remctl → Result → Option Slot → Option (Result × World)
unfolding internal_output_append after_append internal_fail
handle_slot next r result none = some (internal_fail r result)
handle_slot next r result (some (holds (output stream string))) =
    after_append next r (internal_output_append result (holds (output stream string)))
handle_slot next r result (some (holds (Output.error code string))) =
    after_append (λ result'. some (result', remctl_close r)) r
      (internal_output_append result (holds (Output.error code string)))
handle_slot next r result (some (holds (Output.status code))) =
    some (record result { status = code }, remctl_close r)
handle_slot next r result (some finished) = some (result, remctl_close r)

-- The loop, on fuel; `none` is a loop that ran out of it.
unfoldable pub collect : ℕ → Remctl → Result → Option (Result × World)
unfolding handle_slot
collect zero r result = none
collect (suc fuel) r result =
    let (slot, r') = remctl_output r in
    handle_slot (λ result'. collect fuel r' result') r' result slot

-- Each output but the last takes one of the tokens to come, so their number is fuel enough.
unfoldable pub collect_sent : Bool × Remctl → Option (Result × World)
unfolding collect internal_fail
collect_sent (false, r) = some (internal_fail r empty_result)
collect_sent (true, r) = collect (suc (length r.world.channel.incoming)) r empty_result

unfoldable pub send_opened : List Bytes → Bool × Remctl → Option (Result × World)
unfolding collect_sent
send_opened command (false, r) = some (internal_fail r empty_result)
send_opened command (true, r) = collect_sent (remctl_command r command)

unfoldable pub simple_remctl :
    World → Option Bytes → ℕ → Option Bytes → List Bytes → Option (Result × World)
unfolding send_opened
simple_remctl world host port principal command =
    send_opened command (remctl_open (remctl_new world) host port principal)
