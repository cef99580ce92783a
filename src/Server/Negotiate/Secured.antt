-- ===== src/Server/Negotiate/Secured.antt =====
-- The security of a context that the server accepts for protocol version two.
use mathlib.Core.Path.{subst}
use remctl.Base.{
  ℕ, ◌≡◌, ◌<◌, refl, ap, ◌∙◌, Bool, true, false, not, ltb, lt→ltb, ◌==◌, ==_iff, Bool-cases, inl,
  inr, Option, none, some, List, [], ◌∷◌, if◌then◌else◌, Bytes, arith,
}
use remctl.Protocol.{
  TokenStatus, token_ok, fail_system, fail_socket, fail_invalid, fail_large, fail_eof, fail_gssapi,
  fail_timeout,
}
use remctl.Channel.{Channel}
use remctl.Server.Session.{v2, Client}
use remctl.Client.Session.{Major, complete, continue_needed, gss_error}
use remctl.Server.Negotiate.{
  Arrival, arrived, missing, Acceptance, Greeting, new_greeting, old_greeting, new_context,
  old_context, first_protocol, context_protocol, send_acceptance, after_acceptance, accept_context,
  accept, named_client, accepted_client, callbacks_of, greeted_client, server_new_client,
}

-- The rounds of a context whose tokens all came with TOKEN_PROTOCOL, up to one that completed it with
-- the flags that are required.
pub data Secured : List Acceptance → Type 0 where
  completed :
      {round : Acceptance} {rounds : List Acceptance}
      → round.arrival ≡ arrived new_context
      → round.major ≡ complete
      → round.has_flags ≡ true
      → Secured (round ∷ rounds)
  continued :
      {round : Acceptance} {rounds : List Acceptance}
      → round.arrival ≡ arrived new_context
      → round.major ≡ continue_needed
      → Secured rounds
      → Secured (round ∷ rounds)

-- What the loop gives, from the protocol `p` on.
abbrev Good : ℕ → List Acceptance → Option (ℕ × Bool) → Type 0
Good p rounds none = Unit {0}
Good p rounds (some (q, has_flags)) = 1 < q → (1 < p) × (has_flags ≡ true → Secured rounds)

-- A round whose token left the protocol `q`.
abbrev Came : ℕ → ℕ → Acceptance → Type 0
Came p q round = 1 < q → (q ≡ p) × (round.arrival ≡ arrived new_context)

further :
    (p q : ℕ) (round : Acceptance) (rounds : List Acceptance) (result : Option (ℕ × Bool))
    → Came p q round
    → round.major ≡ continue_needed
    → Good q rounds result
    → Good p (round ∷ rounds) result
further p q round rounds none came e h = tt
further p q round rounds (some (x, has_flags)) came e h = λ more.
    let rest = h more in
    let now = came rest.0 in
    (omega (arith, rest.0, now.0), λ flags. continued now.1 e (rest.1 flags))

major-Good :
    (p q : ℕ) (round : Acceptance) (rounds : List Acceptance) (major : Major) (status : TokenStatus)
    → round.major ≡ major
    → Came p q round
    → ((p' : ℕ) → Good p' rounds (accept p' rounds))
    → Good p (round ∷ rounds) (after_acceptance (λ p'. accept p' rounds) q round status)
unfolding after_acceptance
major-Good p q round rounds gss_error token_ok e came ih = rw e tt
major-Good p q round rounds complete token_ok e came ih =
    rw e (λ more. (omega (arith, (came more).0, more), λ flags. completed (came more).1 refl flags))
major-Good p q round rounds continue_needed token_ok e came ih = rw e (
    further p q (record round { major = continue_needed }) rounds (accept q rounds) came refl
      (ih q))
major-Good p q round rounds major fail_system e came ih = tt
major-Good p q round rounds major fail_socket e came ih = tt
major-Good p q round rounds major fail_invalid e came ih = tt
major-Good p q round rounds major fail_large e came ih = tt
major-Good p q round rounds major fail_eof e came ih = tt
major-Good p q round rounds major fail_gssapi e came ih = tt
major-Good p q round rounds major fail_timeout e came ih = tt

-- What a context token leaves.
abbrev Leaves : ℕ → Acceptance → Option ℕ → Type 0
Leaves p round none = Unit {0}
Leaves p round (some q) = Came p q round

context-Leaves :
    (p : ℕ) (round : Acceptance) (arrival : Arrival)
    → round.arrival ≡ arrival
    → Leaves p round (context_protocol p arrival)
unfolding context_protocol
context-Leaves p round (missing status) e = tt
context-Leaves p round (arrived flags) e = elim (Bool-cases (flags == old_context)) [
  | inl old ↦ rw old (λ more. absurd (omega arith))
  | inr other ↦ rw other (elim (Bool-cases (flags == new_context)) [
    | inl new ↦ rw new (λ more. (refl, e ∙ ap arrived ((==_iff flags new_context).0 new)))
    | inr bad ↦ rw bad tt
  ])
]

context-Good :
    (p : ℕ) (round : Acceptance) (rounds : List Acceptance) (protocol : Option ℕ)
    → Leaves p round protocol
    → ((p' : ℕ) → Good p' rounds (accept p' rounds))
    → Good p (round ∷ rounds) (accept_context (λ p'. accept p' rounds) protocol round)
unfolding accept_context
context-Good p round rounds none h ih = tt
context-Good p round rounds (some q) h ih =
    major-Good p q round rounds round.major (send_acceptance round) refl h ih

accept-Good : (p : ℕ) (rounds : List Acceptance) → Good p rounds (accept p rounds)
unfolding accept
accept-Good p [] = tt
accept-Good p (round ∷ rounds) =
    context-Good p round rounds (context_protocol p round.arrival)
      (context-Leaves p round round.arrival refl) (λ p'. accept-Good p' rounds)

-- What the first token and the rounds of a client of protocol two and above are, and its callbacks.
abbrev Secures : Greeting → Option Client → Type 0
Secures greeting none = Unit {0}
Secures greeting (some c) =
    1 < c.protocol
    → (greeting.first ≡ arrived new_greeting) × Secured greeting.rounds × (c.callbacks ≡ v2)

Secures-if :
    (greeting : Greeting) (b : Bool) (x y : Option Client)
    → Secures greeting x
    → Secures greeting y
    → Secures greeting (if b then x else y)
Secures-if greeting true x y hx hy = hx
Secures-if greeting false x y hx hy = hy

callbacks_of-v2 : (protocol : ℕ) → 1 < protocol → callbacks_of protocol ≡ v2
unfolding callbacks_of
callbacks_of-v2 protocol h = ground arith

named-Secures :
    (greeting : Greeting) (protocol : ℕ) (ch : Channel) (name : Option (Bytes × Bool))
    → (1 < protocol → (greeting.first ≡ arrived new_greeting) × Secured greeting.rounds)
    → Secures greeting (named_client protocol ch name)
unfolding named_client
named-Secures greeting protocol ch none h = tt
named-Secures greeting protocol ch (some (name, anonymous)) h =
    λ more. ((h more).0, (h more).1, callbacks_of-v2 protocol more)

accepted-Secures :
    (greeting : Greeting) (p : ℕ) (ch : Channel) (result : Option (ℕ × Bool))
    → (1 < p → greeting.first ≡ arrived new_greeting)
    → Good p greeting.rounds result
    → Secures greeting (accepted_client greeting ch result)
unfolding accepted_client
accepted-Secures greeting p ch none first h = tt
accepted-Secures greeting p ch (some (q, true)) first h = elim (Bool-cases (ltb 1 q)) [
  | inl e ↦
      rw e (named-Secures greeting q ch greeting.name (λ more. (first (h more).0, (h more).1 refl)))
  | inr e ↦
      rw e (named-Secures greeting q ch greeting.name (λ more. (first (h more).0, (h more).1 refl)))
]
accepted-Secures greeting p ch (some (q, false)) first h = elim (Bool-cases (ltb 1 q)) [
  | inl e ↦ rw e tt
  | inr e ↦
      rw e (named-Secures greeting q ch greeting.name (λ more. absurd (cc (e, lt→ltb 1 q more))))
]

-- What the first token leaves.
abbrev Greets : Arrival → Option ℕ → Type 0
Greets first none = Unit {0}
Greets first (some p) = 1 < p → first ≡ arrived new_greeting

first-Greets : (first : Arrival) → Greets first (first_protocol first)
unfolding first_protocol
first-Greets (missing status) = tt
first-Greets (arrived flags) = elim (Bool-cases (flags == new_greeting)) [
  | inl new ↦ rw new (λ more. ap arrived ((==_iff flags new_greeting).0 new))
  | inr other ↦ rw other (elim (Bool-cases (flags == old_greeting)) [
    | inl old ↦ rw old (λ more. absurd (omega arith))
    | inr bad ↦ rw bad tt
  ])
]

greeted-Secures :
    (greeting : Greeting) (ch : Channel) (protocol : Option ℕ)
    → Greets greeting.first protocol
    → Secures greeting (greeted_client greeting ch protocol)
unfolding greeted_client
greeted-Secures greeting ch none h = tt
greeted-Secures greeting ch (some p) h =
    accepted-Secures greeting p ch (accept p greeting.rounds) h (accept-Good p greeting.rounds)

-- A client that `server_new_client` takes with a protocol above one has greeted with TOKEN_PROTOCOL,
-- all its context tokens had TOKEN_PROTOCOL, the context was completed with the flags that are
-- required, and its callbacks are those of server-v2.c.
pub server_new_client-Secured :
    (greeting : Greeting) (ch : Channel) (c : Client)
    → server_new_client greeting ch ≡ some c
    → 1 < c.protocol
    → (greeting.first ≡ arrived new_greeting) × Secured greeting.rounds × (c.callbacks ≡ v2)
unfolding server_new_client
server_new_client-Secured greeting ch c e more =
    subst (λ x. Secures greeting x) e
      (Secures-if greeting (not greeting.has_address) none _ tt
        (greeted-Secures greeting ch (first_protocol greeting.first) (first-Greets greeting.first)))
      more
