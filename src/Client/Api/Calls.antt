-- ===== src/Client/Api/Calls.antt =====
-- Calls of `remctl_output` behind the last result of a command.
use mathlib.Core.Path.{subst}
use remctl.Base.{
  ℕ, zero, suc, ◌≡◌, refl, sym, ap, ◌∙◌, Bool, true, false, not, ◌&&◌, ◌||◌, ◌==◌, Option, none,
  some, [], ◌∷◌, Bytes, if◌then◌else◌,
}
use remctl.Channel.{Received, token, failed}
use remctl.Client.V2.Output.{Output, output, status, error, read_result}
use remctl.Client.Session.{Slot, finished, holds, Remctl, token_data_protocol, recv_priv}
use remctl.Client.V2.Messages.{
  check_version, check_token, internal_v2_read_token, is_output, keep_result, analyze,
  internal_v2_output,
}
use remctl.Client.Api.{remctl_output, output_open, is_missing}

-- The session after `n` calls of `remctl_output`.
unfoldable pub after_calls : ℕ → Remctl → Remctl
after_calls zero r = r
after_calls (suc n) r = after_calls n (remctl_output r).1

-- The protocol and the descriptor are those before.
abbrev Same : Remctl → Remctl → Type 0
Same r d = (d.protocol ≡ r.protocol) × (d.fd ≡ r.fd)

abbrev ReadSame : Remctl → Option Bytes × Remctl → Type 0
ReadSame r (none, d) = Unit {0}
ReadSame r (some tok, d) = Same r d

ReadSame-if :
    (r : Remctl) (b : Bool) (x y : Option Bytes × Remctl)
    → ReadSame r x
    → ReadSame r y
    → ReadSame r (if b then x else y)
ReadSame-if r true x y hx hy = hx
ReadSame-if r false x y hx hy = hy

check_version-Same :
    (r : Remctl) (tok : Bytes) (d : Remctl) → Same r d → ReadSame r (check_version tok d)
unfolding check_version
check_version-Same r [] d h = tt
check_version-Same r (p0 ∷ []) d h = tt
check_version-Same r (p0 ∷ p1 ∷ rest) d h = ReadSame-if r (not (p0 == 2 || p0 == 3)) _ _ tt h

check_token-Same :
    (r : Remctl) (got : Received) (flags : ℕ) (d : Remctl)
    → Same r d
    → ReadSame r (check_token got flags d)
unfolding check_token
check_token-Same r (failed why) flags d h = tt
check_token-Same r (token tok) flags d h =
    ReadSame-if r (not (flags == token_data_protocol)) _ _ tt (check_version-Same r tok d h)

read_token_same : (r : Remctl) → ReadSame r (internal_v2_read_token r)
unfolding internal_v2_read_token recv_priv
read_token_same r =
    let came = recv_priv token_data_protocol r in
    check_token-Same r came.0 came.1 came.2 (refl, refl)

-- Behind an exit status and an error, no answer is expected.
abbrev Answered : Remctl → Option Slot × Remctl → Type 0
Answered r (some (holds (status code)), d) = (d.is_ready ≡ false) × Same r d
Answered r (some (holds (error code string)), d) = (d.is_ready ≡ false) × Same r d
Answered r (some (holds (output stream string)), d) = Unit {0}
Answered r (some finished, d) = Unit {0}
Answered r (none, d) = Unit {0}

Answered-if :
    (r : Remctl) (b : Bool) (x y : Option Slot × Remctl)
    → Answered r x
    → Answered r y
    → Answered r (if b then x else y)
Answered-if r true x y hx hy = hx
Answered-if r false x y hx hy = hy

keep-Answered :
    (r : Remctl) (o : Option Output) (d : Remctl) → Same r d → Answered r (keep_result o d)
unfolding keep_result is_output
keep-Answered r none d h = tt
keep-Answered r (some (output stream string)) d h = tt
keep-Answered r (some (status code)) d h = (refl, h)
keep-Answered r (some (error code string)) d h = (refl, h)

analyze-Answered :
    (r : Remctl) (read : Option Bytes × Remctl) → ReadSame r read → Answered r (analyze read)
unfolding analyze
analyze-Answered r (none, d) h = tt
analyze-Answered r (some tok, d) h = keep-Answered r (read_result tok) d h

v2_output-Answered : (r : Remctl) → Answered r (internal_v2_output r)
unfolding internal_v2_output
v2_output-Answered r =
    Answered-if r (not r.is_ready) _ _ tt
      (analyze-Answered r _ (read_token_same (record r { output = some finished })))

output_open-v2 : (r : Remctl) → r.protocol ≡ 2 → output_open r ≡ internal_v2_output r
unfolding output_open
output_open-v2 r e = rw e refl

remctl_output-Answered : (r : Remctl) → r.protocol ≡ 2 → Answered r (remctl_output r)
unfolding remctl_output
remctl_output-Answered r e =
    Answered-if r (is_missing r.fd && (not (r.protocol == 1) || is_missing r.host)) _ _ tt (
      subst (λ x. Answered r x) (sym (output_open-v2 (record r { error = none }) e))
        (v2_output-Answered (record r { error = none })))

v2_finished :
    (r : Remctl) (fd : ℕ)
    → r.protocol ≡ 2
    → r.fd ≡ some fd
    → r.is_ready ≡ false
    → remctl_output r ≡ (some finished, record r { error = none; output = some finished })
unfolding remctl_output output_open internal_v2_output
v2_finished r fd e1 e2 e3 = rw (e1, e2, e3) refl

finished_calls :
    (n : ℕ) (r : Remctl) (fd : ℕ)
    → r.protocol ≡ 2
    → r.fd ≡ some fd
    → r.is_ready ≡ false
    → (remctl_output (after_calls n r)).0 ≡ some finished
unfolding after_calls
finished_calls zero r fd e1 e2 e3 = ap (λ p. p.0) (v2_finished r fd e1 e2 e3)
finished_calls (suc n) r fd e1 e2 e3 =
    rw (v2_finished r fd e1 e2 e3)
      (finished_calls n (record r { error = none; output = some finished }) fd e1 e2 e3)

-- What the session is behind the last result of a command.
last_result :
    (r d : Remctl) (o : Output)
    → is_output o ≡ false
    → Answered r (some (holds o), d)
    → (d.is_ready ≡ false) × Same r d
unfolding is_output
last_result r d (output stream string) e h = absurd (cc e)
last_result r d (status code) e h = h
last_result r d (error code string) e h = h

-- In protocol version two, once a call on an open connection has returned the exit status or an
-- error, every later call returns REMCTL_OUT_DONE, whatever comes in.
pub remctl_output-after_calls :
    (n : ℕ) (r d : Remctl) (fd : ℕ) (o : Output)
    → r.protocol ≡ 2
    → r.fd ≡ some fd
    → is_output o ≡ false
    → remctl_output r ≡ (some (holds o), d)
    → (remctl_output (after_calls n d)).0 ≡ some finished
remctl_output-after_calls n r d fd o e1 e2 last e =
    let (ready, same) =
      last_result r d o last (subst (λ x. Answered r x) e (remctl_output-Answered r e1)) in
    finished_calls n d fd (same.0 ∙ e1) (same.1 ∙ e2) ready
