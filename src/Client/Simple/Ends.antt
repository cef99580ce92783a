-- ===== src/Client/Simple/Ends.antt =====
-- The loop of the simplified interface ends.
use remctl.Base.{
  ℕ, zero, suc, ◌<◌, ◌≡◌, refl, sym, ◌-◌, drop, ntohl, Bool, true, false, not, ◌&&◌, ◌||◌, ◌==◌,
  Option, none, some, List, [], ◌∷◌, length, ltb, if◌then◌else◌, Bytes, arith,
}
use remctl.Base.Int.{ℤ}
use remctl.Channel.{Received, token, failed, token_recv_priv, deliver}
use remctl.Client.V2.Output.{Output, output, status, error, read_result}
use remctl.Client.Session.{
  World, Slot, finished, holds, Remctl, recv_priv, socket_close, token_data, token_data_protocol,
}
use remctl.Client.V1
use remctl.Client.V2.Messages.{
  check_token, check_version, internal_v2_read_token, analyze, keep_result, internal_v2_output,
}
use remctl.Client.Api.{remctl_command, remctl_output, remctl_close, output_open, is_missing}
use remctl.Client.Simple.{
  Result, internal_output_append, after_append, handle_slot, collect, collect_sent, send_opened,
  simple_remctl,
}

abbrev pub to_come : Remctl → ℕ
to_come r = length r.world.channel.incoming

-- Output has taken one of `n` tokens.
abbrev pub Takes : ℕ → Option Slot × Remctl → Type 0
Takes n (some (holds (output stream string)), r) = to_come r < n
Takes n (some (holds (status code)), r) = Unit {0}
Takes n (some (holds (error code string)), r) = Unit {0}
Takes n (some finished, r) = Unit {0}
Takes n (none, r) = Unit {0}

-- A token that was read has been taken from `n` tokens.
abbrev Read : ℕ → Option Bytes × Remctl → Type 0
Read n (none, r) = Unit {0}
Read n (some tok, r) = to_come r < n

Takes-if :
    (n : ℕ) (b : Bool) (x y : Option Slot × Remctl)
    → Takes n x
    → Takes n y
    → Takes n (if b then x else y)
Takes-if n true x y hx hy = hx
Takes-if n false x y hx hy = hy

Read-if :
    (n : ℕ) (b : Bool) (x y : Option Bytes × Remctl)
    → Read n x
    → Read n y
    → Read n (if b then x else y)
Read-if n true x y hx hy = hx
Read-if n false x y hx hy = hy

check_version_takes :
    (n : ℕ) (tok : Bytes) (r : Remctl) → to_come r < n → Read n (check_version tok r)
unfolding check_version
check_version_takes n [] r h = tt
check_version_takes n (p0 ∷ []) r h = tt
check_version_takes n (p0 ∷ p1 ∷ rest) r h = Read-if n (not (p0 == 2 || p0 == 3)) _ _ tt h

-- What comes in, from a list of what is to come.
abbrev Came : ℕ → Received → Remctl → Type 0
Came n (token tok) r = to_come r < n
Came n (failed why) r = Unit {0}

check_token_takes :
    (n : ℕ) (got : Received) (flags : ℕ) (r : Remctl)
    → Came n got r
    → Read n (check_token got flags r)
unfolding check_token
check_token_takes n (failed why) flags r h = tt
check_token_takes n (token tok) flags r h =
    Read-if n (not (flags == token_data_protocol)) _ _ tt (check_version_takes n tok r h)

came :
    (rs : List Received) (r : Remctl) (flags : List ℕ)
    → Came (length rs) (deliver rs r.world.channel).0 (record r {
      world = record r.world { channel = (deliver rs r.world.channel).1; flags = flags };
    })
unfolding deliver
came [] r flags = tt
came (token tok ∷ rest) r flags = omega arith
came (failed why ∷ rest) r flags = tt

internal_v2_read_token-Read : (r : Remctl) → Read (to_come r) (internal_v2_read_token r)
unfolding internal_v2_read_token recv_priv token_recv_priv
internal_v2_read_token-Read r =
    check_token_takes (to_come r) _ _ _ (came r.world.channel.incoming r _)

keep-Takes : (n : ℕ) (o : Option Output) (r : Remctl) → to_come r < n → Takes n (keep_result o r)
unfolding keep_result
keep-Takes n none r h = tt
keep-Takes n (some (output stream string)) r h = h
keep-Takes n (some (status code)) r h = tt
keep-Takes n (some (error code string)) r h = tt

analyze-Takes : (n : ℕ) (read : Option Bytes × Remctl) → Read n read → Takes n (analyze read)
unfolding analyze
analyze-Takes n (none, r) h = tt
analyze-Takes n (some tok, r) h = keep-Takes n (read_result tok) r h

v2_output-Takes : (r : Remctl) → Takes (to_come r) (internal_v2_output r)
unfolding internal_v2_output
v2_output-Takes r = Takes-if (to_come r) (not r.is_ready) _ _ tt (
    analyze-Takes (to_come r) _ (internal_v2_read_token-Read (record r { output = some finished })))

socket_close_keeps : (fd : Option ℕ) (r : Remctl) → fd ≡ r.fd → to_come (socket_close r) ≡ to_come r
unfolding socket_close
socket_close_keeps none r e = rw (sym e) refl
socket_close_keeps (some fd) r e = rw (sym e) refl

v1_result-Takes :
    (n : ℕ) (tok : Bytes) (r : Remctl) → to_come r < n → Takes n (V1.read_result tok r)
unfolding V1.read_result V1.keep_output
v1_result-Takes n tok r h = Takes-if n (ltb (length tok) 8) _ _ tt (
    Takes-if n (not (ntohl (drop 4 tok) == length tok - 8)) _ _ tt (
      omega
        (arith, socket_close_keeps r.fd (record r { status = V1.signed_int (ntohl tok) }) refl)))

v1_token-Takes :
    (n : ℕ) (got : Received) (flags : ℕ) (r : Remctl)
    → Came n got r
    → Takes n (V1.check_token got flags r)
unfolding V1.check_token
v1_token-Takes n (failed why) flags r h = tt
v1_token-Takes n (token tok) flags r h =
    Takes-if n (not (flags == token_data)) _ _ tt (v1_result-Takes n tok r h)

v1_answer-Takes : (r : Remctl) → Takes (to_come r) (V1.read_answer r)
unfolding V1.read_answer recv_priv token_recv_priv
v1_answer-Takes r = v1_token-Takes (to_come r) _ _ _ (came r.world.channel.incoming r _)

next_slot-Takes :
    (n : ℕ) (slot : Slot) (kept : ℤ) (r : Remctl) → Takes n (some (V1.next_slot slot kept), r)
unfolding V1.next_slot
next_slot-Takes n finished kept r = tt
next_slot-Takes n (holds (output stream string)) kept r = tt
next_slot-Takes n (holds (status code)) kept r = tt
next_slot-Takes n (holds (error code string)) kept r = tt

v1_output-Takes : (slot : Option Slot) (r : Remctl) → Takes (to_come r) (V1.later_output r slot)
unfolding V1.later_output
v1_output-Takes none r = v1_answer-Takes r
v1_output-Takes (some slot) r =
    Takes-if (to_come r) r.is_ready _ _ (v1_answer-Takes r)
      (next_slot-Takes (to_come r) slot r.status _)

pub remctl_output-Takes : (r : Remctl) → Takes (to_come r) (remctl_output r)
unfolding remctl_output output_open V1.internal_v1_output
remctl_output-Takes r =
    Takes-if (to_come r) (is_missing r.fd && (not (r.protocol == 1) || is_missing r.host)) _ _ tt (
      Takes-if (to_come r) (r.protocol == 1) _ _
        (v1_output-Takes r.output (record r { error = none }))
        (v2_output-Takes (record r { error = none })))

-- A loop that ends with a result.
abbrev Returns : Option (Result × World) → Type 0
Returns none = ⊥
Returns (some result) = Unit {0}

append-Returns :
    (next : Result → Option (Result × World)) (r : Remctl) (appended : Bool × Result)
    → ((result : Result) → Returns (next result))
    → Returns (after_append next r appended)
unfolding after_append
append-Returns next r (true, result) h = h result
append-Returns next r (false, result) h = tt

handle_slot-Returns :
    (n : ℕ) (next : Result → Option (Result × World)) (r : Remctl) (result : Result)
    (slot : Option Slot)
    → Takes n (slot, r)
    → (to_come r < n → (result' : Result) → Returns (next result'))
    → Returns (handle_slot next r result slot)
unfolding handle_slot
handle_slot-Returns n next r result none h k = tt
handle_slot-Returns n next r result (some finished) h k = tt
handle_slot-Returns n next r result (some (holds (output stream string))) h k =
    append-Returns next r (internal_output_append result (holds (output stream string))) (k h)
handle_slot-Returns n next r result (some (holds (status code))) h k = tt
handle_slot-Returns n next r result (some (holds (error code string))) h k =
    append-Returns (λ result'. some (result', remctl_close r)) r
      (internal_output_append result (holds (error code string))) (λ result'. tt)

collect-Returns :
    (fuel : ℕ) (r : Remctl) (result : Result) → to_come r < fuel → Returns (collect fuel r result)
unfolding collect
collect-Returns zero r result h = absurd (omega arith)
collect-Returns (suc fuel) r result h =
    handle_slot-Returns (to_come r) _ _ result _ (remctl_output-Takes r)
      (λ less result'. collect-Returns fuel _ result' (omega arith))

sent-Returns : (sent : Bool × Remctl) → Returns (collect_sent sent)
unfolding collect_sent
sent-Returns (false, r) = tt
sent-Returns (true, r) = collect-Returns (suc (to_come r)) r _ (omega arith)

opened-Returns :
    (command : List Bytes) (opened : Bool × Remctl) → Returns (send_opened command opened)
unfolding send_opened
opened-Returns command (false, r) = tt
opened-Returns command (true, r) = sent-Returns (remctl_command r command)

result_of :
    (o : Option (Result × World))
    → Returns o
    → (result : Result) × (world : World) × (o ≡ some (result, world))
result_of none h = absurd h
result_of (some (result, world)) h = (result, world, refl)

-- Whatever the network and GSS-API answer, and whatever finite sequence of tokens the server sends
-- before nothing more is received, the simplified interface returns a result.
pub simple_remctl_returns :
    (world : World) (host : Option Bytes) (port : ℕ) (principal : Option Bytes)
    (command : List Bytes)
    → (result : Result) × (world' : World) × (simple_remctl world host port principal command
        ≡ some (result, world'))
unfolding simple_remctl
simple_remctl_returns world host port principal command = result_of _ (opened-Returns command _)
