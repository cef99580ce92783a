-- ===== src/Client/Api/Stale.antt =====
-- What `remctl_open` leaves of an old connection, where no new one can be made.
use remctl.Base.{
  ℕ, ◌≡◌, refl, ap, ◌∙◌, Bool, true, false, ◌==◌, ltb, Option, none, some, [], ◌∷◌, ◌++◌, Bytes,
  if◌then◌else◌,
}
use remctl.Protocol.{
  TokenStatus, token_ok, fail_system, fail_socket, fail_invalid, fail_large, fail_eof, fail_gssapi,
  fail_timeout,
}
use remctl.Channel.{Channel}
use remctl.Client.Session.{
  Error, Attempt, no_address, not_connected, connected, Remctl, socket_close, send_priv,
  sent_or_error,
}
use remctl.Client.Open.{internal_connect, attempt_result}
use remctl.Client.V2.Messages.{internal_v2_quit}
use remctl.Client.Api.{
  quit_connection, reset_connection, internal_reset, prefer_error, connect_old, connect_ports,
  open_connected, remctl_open, remctl_port, remctl_port_old,
}

-- The descriptor, and those that are closed, are those before.
abbrev Keeps : Remctl → Remctl → Type 0
Keeps r d = (d.fd ≡ r.fd) × (d.world.closed ≡ r.world.closed)

Keeps-trans : (r d x : Remctl) → Keeps r d → Keeps d x → Keeps r x
Keeps-trans r d x h k = (k.0 ∙ h.0, k.1 ∙ h.1)

sent-Keeps :
    (status : TokenStatus) (ch : Channel) (r : Remctl) → Keeps r (sent_or_error (status, ch) r).1
unfolding sent_or_error
sent-Keeps token_ok ch r = (refl, refl)
sent-Keeps fail_system ch r = (refl, refl)
sent-Keeps fail_socket ch r = (refl, refl)
sent-Keeps fail_invalid ch r = (refl, refl)
sent-Keeps fail_large ch r = (refl, refl)
sent-Keeps fail_eof ch r = (refl, refl)
sent-Keeps fail_gssapi ch r = (refl, refl)
sent-Keeps fail_timeout ch r = (refl, refl)

quit_if : (b : Bool) (r : Remctl) → Keeps r (if b then (internal_v2_quit r).1 else r)
unfolding internal_v2_quit send_priv
quit_if true r = sent-Keeps _ _ r
quit_if false r = (refl, refl)

quit-Keeps : (r : Remctl) → Keeps r (quit_connection r)
unfolding quit_connection
quit-Keeps r = quit_if (ltb 1 r.protocol) r

close_stale :
    (d : Remctl) (fd : ℕ)
    → d.fd ≡ some fd
    → ((socket_close d).fd ≡ some fd) × ((socket_close d).world.closed ≡ d.world.closed ++ fd ∷ [])
unfolding socket_close
close_stale d fd e = rw e (refl, refl)

-- The old descriptor is closed, and stays.
reset_connection_stale :
    (o : Option ℕ) (r : Remctl) (fd : ℕ)
    → o ≡ some fd
    → r.fd ≡ some fd
    → ((reset_connection o r).fd ≡ some fd)
      × ((reset_connection o r).world.closed ≡ r.world.closed ++ fd ∷ [])
unfolding reset_connection
reset_connection_stale none r fd e h = absurd (cc e)
reset_connection_stale (some x) r fd e h =
    let quit = quit-Keeps r in
    let stale = close_stale (quit_connection r) fd (quit.0 ∙ h) in
    (stale.0, stale.1 ∙ ap (λ l. l ++ fd ∷ []) quit.1)

reset_stale :
    (r : Remctl) (fd : ℕ)
    → r.fd ≡ some fd
    → ((internal_reset r).fd ≡ some fd)
      × ((internal_reset r).world.closed ≡ r.world.closed ++ fd ∷ [])
unfolding internal_reset
reset_stale r fd e = reset_connection_stale r.fd r fd e e

attempt-Keeps : (attempt : Attempt) (r : Remctl) → Keeps r (attempt_result attempt r).1
unfolding attempt_result
attempt-Keeps no_address r = (refl, refl)
attempt-Keeps not_connected r = (refl, refl)
attempt-Keeps (connected fd) r = (refl, refl)

connect-Keeps :
    (r : Remctl) (host : Option Bytes) (port : ℕ) → Keeps r (internal_connect r host port).1
unfolding internal_connect
connect-Keeps r host port = attempt-Keeps _ _

prefer-Keeps :
    (old_error : Option Error) (r : Remctl) (c : Option ℕ × Remctl)
    → Keeps r c.1
    → Keeps r (prefer_error old_error c).1
unfolding prefer_error
prefer-Keeps old_error r (none, d) h = h
prefer-Keeps old_error r (some fd, d) h = h

old-Keeps :
    (r : Remctl) (host : Option Bytes) (c : Option ℕ × Remctl)
    → Keeps r c.1
    → Keeps r (connect_old host c).1
unfolding connect_old
old-Keeps r host (some fd, d) h = h
old-Keeps r host (none, d) h =
    let second = internal_connect (record d { error = none }) host remctl_port_old in
    prefer-Keeps d.error r second (
      Keeps-trans r (record d { error = none }) second.1 h
        (connect-Keeps (record d { error = none }) host remctl_port_old))

ports_if :
    (b : Bool) (r : Remctl) (x y : Option ℕ × Remctl)
    → Keeps r x.1
    → Keeps r y.1
    → Keeps r (if b then x else y).1
ports_if true r x y hx hy = hx
ports_if false r x y hx hy = hy

ports-Keeps : (r : Remctl) (host : Option Bytes) (port : ℕ) → Keeps r (connect_ports r host port).1
unfolding connect_ports
ports-Keeps r host port =
    ports_if (port == 0) r _ _
      (old-Keeps r host (internal_connect r host remctl_port) (connect-Keeps r host remctl_port))
      (connect-Keeps r host port)

open_none : (c : Option ℕ × Remctl) → c.0 ≡ none → open_connected c ≡ (false, c.1)
unfolding open_connected
open_none (none, d) e = refl
open_none (some fd, d) e = absurd (cc e)

-- Where a session is opened again, and no connection can be made, `remctl_open` fails, and the
-- structure still has the descriptor of the old connection, which has been closed.
pub remctl_open_stale :
    (r : Remctl) (host : Option Bytes) (port : ℕ) (principal : Option Bytes) (fd : ℕ)
    → r.fd ≡ some fd
    → (connect_ports
        (record (internal_reset r) { host = host; port = port; principal = principal })
        host
        port).0
      ≡ none
    → (d : Remctl) × (remctl_open r host port principal ≡ (false, d))
      × (d.fd ≡ some fd)
      × (d.world.closed ≡ r.world.closed ++ fd ∷ [])
unfolding remctl_open
remctl_open_stale r host port principal fd e unconnected =
    let keeps =
      ports-Keeps (record (internal_reset r) { host = host; port = port; principal = principal })
        host port in
    let reset = reset_stale r fd e in
    (
      (connect_ports (record (internal_reset r) { host = host; port = port; principal = principal })
          host port).1,
      open_none _ unconnected,
      keeps.0 ∙ reset.0,
      keeps.1 ∙ reset.1,
    )
