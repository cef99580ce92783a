-- ===== src/Client/Api/Turns.antt =====
-- Calls of `remctl_output` in protocol version one, behind the one that returned the output.
use mathlib.Core.Path.{subst}
use remctl.Base.{
  ℕ, zero, suc, ◌-◌, ◌*◌, ◌≡◌, refl, sym, ap, ◌∙◌, Bool, true, false, not, ◌&&◌, ◌||◌, ◌==◌, Option,
  none, some, length, drop, ltb, ntohl, Bytes, if◌then◌else◌, arith,
}
use remctl.Base.Int.{ℤ}
use remctl.Channel.{Received, token, failed}
use remctl.Client.V2.Output.{output, status, error}
use remctl.Client.Session.{
  Slot, finished, holds, Remctl, set_error, no_connection, token_data, recv_priv, socket_close,
}
use remctl.Client.V1.{
  signed_int, keep_output, read_result, check_token, read_answer, internal_v1_output, later_output,
  next_slot,
}
use remctl.Client.Api.{remctl_output, output_open, is_missing}
use remctl.Client.Api.Calls.{after_calls}

-- A session of protocol version one without a connection, whose answer has come.
abbrev pub Over : Remctl → Slot → Remctl → Type 0
Over r slot d =
    (d.protocol ≡ r.protocol)
    × (d.host ≡ r.host)
    × (d.fd ≡ none)
    × (d.is_ready ≡ false)
    × (d.output ≡ some slot)

abbrev SameHost : Remctl → Remctl → Type 0
SameHost r d = (d.protocol ≡ r.protocol) × (d.host ≡ r.host)

-- Output leaves such a session.
abbrev Closes : Remctl → Option Slot × Remctl → Type 0
Closes r (some (holds (output stream string)), d) = Over r (holds (output stream string)) d
Closes r (some (holds (status code)), d) = Unit {0}
Closes r (some (holds (error code string)), d) = Unit {0}
Closes r (some finished, d) = Unit {0}
Closes r (none, d) = Unit {0}

Closes-if :
    (r : Remctl) (b : Bool) (x y : Option Slot × Remctl)
    → Closes r x
    → Closes r y
    → Closes r (if b then x else y)
Closes-if r true x y hx hy = hx
Closes-if r false x y hx hy = hy

close_same : (fd : Option ℕ) (d : Remctl) → d.fd ≡ fd → SameHost d (socket_close d)
unfolding socket_close
close_same none d e = rw e (refl, refl)
close_same (some fd) d e = rw e (refl, refl)

keep-Closes :
    (r : Remctl) (string : Bytes) (d : Remctl) → SameHost r d → Closes r (keep_output string d)
unfolding keep_output
keep-Closes r string d h =
    let same = close_same d.fd d refl in (same.0 ∙ h.0, same.1 ∙ h.1, refl, refl, refl)

result-Closes :
    (r : Remctl) (tok : Bytes) (d : Remctl) → SameHost r d → Closes r (read_result tok d)
unfolding read_result
result-Closes r tok d h = Closes-if r (ltb (length tok) 8) _ _ tt (
    Closes-if r (not (ntohl (drop 4 tok) == length tok - 8)) _ _ tt
      (keep-Closes r (drop 8 tok) (record d { status = signed_int (ntohl tok) }) h))

token-Closes :
    (r : Remctl) (got : Received) (flags : ℕ) (d : Remctl)
    → SameHost r d
    → Closes r (check_token got flags d)
unfolding check_token
token-Closes r (failed why) flags d h = tt
token-Closes r (token tok) flags d h =
    Closes-if r (not (flags == token_data)) _ _ tt (result-Closes r tok d h)

answer-Closes : (r : Remctl) → Closes r (read_answer r)
unfolding read_answer recv_priv
answer-Closes r =
    let came = recv_priv token_data r in token-Closes r came.0 came.1 came.2 (refl, refl)

next-Closes :
    (r : Remctl) (slot : Slot) (kept : ℤ) (d : Remctl) → Closes r (some (next_slot slot kept), d)
unfolding next_slot
next-Closes r finished kept d = tt
next-Closes r (holds (output stream string)) kept d = tt
next-Closes r (holds (status code)) kept d = tt
next-Closes r (holds (error code string)) kept d = tt

later-Closes : (r : Remctl) (slot : Option Slot) → Closes r (later_output r slot)
unfolding later_output
later-Closes r none = answer-Closes r
later-Closes r (some slot) =
    Closes-if r r.is_ready _ _ (answer-Closes r) (next-Closes r slot r.status _)

output_open-v1 : (r : Remctl) → r.protocol ≡ 1 → output_open r ≡ internal_v1_output r
unfolding output_open
output_open-v1 r e = rw e refl

remctl_output-Closes : (r : Remctl) → r.protocol ≡ 1 → Closes r (remctl_output r)
unfolding remctl_output internal_v1_output
remctl_output-Closes r e =
    Closes-if r (is_missing r.fd && (not (r.protocol == 1) || is_missing r.host)) _ _ tt (
      subst (λ x. Closes r x) (sym (output_open-v1 (record r { error = none }) e))
        (later-Closes (record r { error = none }) r.output))

-- In protocol version one, on a session that was opened without a host (`remctl_open_fd`,
-- `remctl_open_addrinfo`), the call behind the one that returned the output of a command fails: the
-- exit status cannot be retrieved.
pub remctl_output-no_host :
    (r d : Remctl) (stream : ℕ) (string : Bytes)
    → r.protocol ≡ 1
    → r.host ≡ none
    → remctl_output r ≡ (some (holds (output stream string)), d)
    → remctl_output d ≡ (none, set_error no_connection d)
unfolding remctl_output
remctl_output-no_host r d stream string e1 e2 e =
    let over : Over r (holds (output stream string)) d =
      subst (λ x. Closes r x) e (remctl_output-Closes r e1) in
    rw (over.2, over.1 ∙ e2, over.0 ∙ e1) refl

-- Such a session, opened by host.
abbrev answered_v1 : Remctl → Bytes → Slot → Remctl
answered_v1 r host slot = record r {
  protocol = 1;
  host = some host;
  fd = none;
  is_ready = false;
  output = some slot;
}

d-eq :
    (r d : Remctl) (host : Bytes) (slot : Slot)
    → r.protocol ≡ 1
    → r.host ≡ some host
    → Over r slot d
    → d ≡ answered_v1 d host slot
d-eq r d host slot e1 e2 over =
    ap (λ x. record d { protocol = x }) (over.0 ∙ e1)
    ∙ ap (λ x. record d { protocol = 1; host = x }) (over.1 ∙ e2)
    ∙ ap (λ x. record d { protocol = 1; host = some host; fd = x }) over.2
    ∙ ap (λ x. record d { protocol = 1; host = some host; fd = none; is_ready = x }) over.3
    ∙ ap (λ x. record d { protocol = 1; host = some host; fd = none; is_ready = false; output = x })
        over.4

suc_twice : (n : ℕ) → suc n * 2 ≡ suc (suc (n * 2))
suc_twice n = omega arith

-- The calls of numbers 2 * n and 2 * n + 1.
abbrev Turns : ℕ → ℤ → Remctl → Type 0
Turns n code d =
    ((remctl_output (after_calls (n * 2) d)).0 ≡ some (holds (status code)))
    × ((remctl_output (after_calls (suc (n * 2)) d)).0 ≡ some finished)

finished-Turns :
    (n : ℕ) (r : Remctl) (host : Bytes) → Turns n r.status (answered_v1 r host finished)
unfolding after_calls remctl_output output_open internal_v1_output later_output next_slot
finished-Turns zero r host = (refl, refl)
finished-Turns (suc n) r host = rw (suc_twice n) (finished-Turns n (record r { error = none }) host)

output-Turns :
    (n : ℕ) (r : Remctl) (host : Bytes) (stream : ℕ) (string : Bytes)
    → Turns n r.status (answered_v1 r host (holds (output stream string)))
unfolding after_calls remctl_output output_open internal_v1_output later_output next_slot
output-Turns zero r host stream string = (refl, refl)
output-Turns (suc n) r host stream string =
    rw (suc_twice n) (finished-Turns n (record r { error = none }) host)

-- In protocol version one, on a session that was opened by host, the calls behind the one that
-- returned the output of a command return the exit status and REMCTL_OUT_DONE by turns, for as long
-- as they are made.
pub remctl_output_alternates :
    (n : ℕ) (r d : Remctl) (host : Bytes) (stream : ℕ) (string : Bytes)
    → r.protocol ≡ 1
    → r.host ≡ some host
    → remctl_output r ≡ (some (holds (output stream string)), d)
    → ((remctl_output (after_calls (n * 2) d)).0 ≡ some (holds (status d.status)))
      × ((remctl_output (after_calls (suc (n * 2)) d)).0 ≡ some finished)
remctl_output_alternates n r d host stream string e1 e2 e =
    let over : Over r (holds (output stream string)) d =
      subst (λ x. Closes r x) e (remctl_output-Closes r e1) in
    subst (Turns n d.status) (sym (d-eq r d host (holds (output stream string)) e1 e2 over))
      (output-Turns n d host stream string)
