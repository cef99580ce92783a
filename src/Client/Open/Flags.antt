-- ===== src/Client/Open/Flags.antt =====
-- The security of a context that `internal_open` accepts for protocol version two.
use mathlib.Core.Path.{subst}
use remctl.Base.{
  ℕ, ◌≡◌, ◌<◌, ◌≤◌, refl, Bool, true, false, not, ltb, lt→ltb, Bool-cases, inl, inr, List, [], ◌∷◌,
  if◌then◌else◌, arith,
}
use remctl.Protocol.{
  TokenStatus, token_ok, fail_system, fail_socket, fail_invalid, fail_large, fail_eof, fail_gssapi,
  fail_timeout,
}
use remctl.Client.Session.{
  Major, complete, continue_needed, gss_error, Answer, answered, unanswered, Round, Handshake,
  Remctl,
}
use remctl.Client.Open.{
  Established, failure, context, downgrade, send_round, after_send, establish, open_failed,
  check_flags, first_sent, open_with, next_handshake, internal_open, default_protocol,
  has_credentials,
}

-- The rounds of a context that the server answered with TOKEN_PROTOCOL throughout, up to one that
-- completed it with the flags that are required.
pub data Negotiated : List Round → Type 0 where
  completed :
      {round : Round} {rounds : List Round}
      → round.major ≡ complete
      → round.has_flags ≡ true
      → Negotiated (round ∷ rounds)
  continued :
      {round : Round} {rounds : List Round}
      → round.major ≡ continue_needed
      → round.answer ≡ answered true
      → Negotiated rounds
      → Negotiated (round ∷ rounds)

-- What the loop gives, from the protocol `p` on.
abbrev Good : ℕ → List Round → Established × ℕ → Type 0
Good p rounds (failure e, q) = Unit {0}
Good p rounds (context has_flags, q) = 1 < q → (1 < p) × (has_flags ≡ true → Negotiated rounds)

downgrade_low : (p : ℕ) → downgrade p false ≤ 1
unfolding downgrade
downgrade_low p = elim (Bool-cases (ltb 1 p)) [
  | inl e ↦ rw e (omega arith)
  | inr e ↦ rw e (ground (arith, lt→ltb 1 p, e))
]

downgrade-true : (p : ℕ) → downgrade p true ≡ p
unfolding downgrade
downgrade-true p = elim (Bool-cases (ltb 1 p)) [ inl e ↦ rw e refl | inr e ↦ rw e refl ]

-- A further round, from what the rest of the loop gives.
further :
    (p : ℕ) (round : Round) (rounds : List Round) (has_protocol : Bool) (result : Established × ℕ)
    → round.major ≡ continue_needed
    → round.answer ≡ answered has_protocol
    → Good (downgrade p has_protocol) rounds result
    → Good p (round ∷ rounds) result
further p round rounds has_protocol (failure e, q) e1 e2 h = tt
further p round rounds true (context has_flags, q) e1 e2 h = λ more.
    let rest = h more in
    (omega (arith, rest.0, downgrade-true p), λ flags. continued e1 e2 (rest.1 flags))
further p round rounds false (context has_flags, q) e1 e2 h =
    λ more. absurd (omega (arith, (h more).0, downgrade_low p))

sent-Good :
    (p : ℕ) (round : Round) (rounds : List Round) (major : Major) (answer : Answer)
    → round.major ≡ major
    → round.answer ≡ answer
    → ((p' : ℕ) → Good p' rounds (establish p' rounds))
    → Good p (round ∷ rounds) (after_send (λ p'. establish p' rounds) p round token_ok)
unfolding after_send
sent-Good p round rounds gss_error answer e1 e2 ih = rw e1 tt
sent-Good p round rounds complete answer e1 e2 ih =
    rw e1 (λ more. (more, λ flags. completed refl flags))
sent-Good p round rounds continue_needed (unanswered status) e1 e2 ih = rw (e1, e2) tt
sent-Good p round rounds continue_needed (answered has_protocol) e1 e2 ih =
    rw (e1, e2)
      (further p (record round { major = continue_needed; answer = answered has_protocol }) rounds
        has_protocol _ refl refl (ih (downgrade p has_protocol)))

round-Good :
    (p : ℕ) (round : Round) (rounds : List Round) (status : TokenStatus)
    → ((p' : ℕ) → Good p' rounds (establish p' rounds))
    → Good p (round ∷ rounds) (after_send (λ p'. establish p' rounds) p round status)
unfolding after_send
round-Good p round rounds token_ok ih =
    sent-Good p round rounds round.major round.answer refl refl ih
round-Good p round rounds fail_system ih = tt
round-Good p round rounds fail_socket ih = tt
round-Good p round rounds fail_invalid ih = tt
round-Good p round rounds fail_large ih = tt
round-Good p round rounds fail_eof ih = tt
round-Good p round rounds fail_gssapi ih = tt
round-Good p round rounds fail_timeout ih = tt

establish-Good : (p : ℕ) (rounds : List Round) → Good p rounds (establish p rounds)
unfolding establish
establish-Good p [] = tt
establish-Good p (round ∷ rounds) =
    round-Good p round rounds (send_round round) (λ p'. establish-Good p' rounds)

-- What is opened with protocol version two is negotiated.
abbrev Secure : List Round → Bool × Remctl → Type 0
Secure rounds (false, d) = Unit {0}
Secure rounds (true, d) = 1 < d.protocol → Negotiated rounds

check-Secure :
    (rounds : List Round) (p : ℕ) (result : Established × ℕ) (r : Remctl)
    → Good p rounds result
    → Secure rounds (check_flags result r)
unfolding check_flags open_failed
check-Secure rounds p (failure e, q) r h = tt
check-Secure rounds p (context true, q) r h = elim (Bool-cases (ltb 1 q)) [
  | inl e ↦ rw e (λ more. (h more).1 refl)
  | inr e ↦ rw e (λ more. (h more).1 refl)
]
check-Secure rounds p (context false, q) r h = elim (Bool-cases (ltb 1 q)) [
  | inl e ↦ rw e tt
  | inr e ↦ rw e (λ more. absurd (cc (e, lt→ltb 1 q more)))
]

first-Secure :
    (rounds : List Round) (status : TokenStatus) (r : Remctl)
    → Secure rounds (first_sent rounds status r)
unfolding first_sent open_failed
first-Secure rounds token_ok r =
    check-Secure rounds r.protocol (establish r.protocol rounds) r
      (establish-Good r.protocol rounds)
first-Secure rounds fail_system r = tt
first-Secure rounds fail_socket r = tt
first-Secure rounds fail_invalid r = tt
first-Secure rounds fail_large r = tt
first-Secure rounds fail_eof r = tt
first-Secure rounds fail_gssapi r = tt
first-Secure rounds fail_timeout r = tt

Secure-if :
    (rounds : List Round) (b : Bool) (x y : Bool × Remctl)
    → Secure rounds x
    → Secure rounds y
    → Secure rounds (if b then x else y)
Secure-if rounds true x y hx hy = hx
Secure-if rounds false x y hx hy = hy

open_with-Secure :
    (handshake : Handshake) (r : Remctl) → Secure handshake.rounds (open_with handshake r)
unfolding open_with open_failed
open_with-Secure handshake r = Secure-if handshake.rounds (not handshake.name_imported) _ _ tt (
    Secure-if handshake.rounds (not (has_credentials r.ccache handshake)) _ _ tt (
      first-Secure handshake.rounds handshake.first_status
        (record r { protocol = default_protocol r.protocol })))

-- A connection that `internal_open` opens with a protocol above one has a context that was
-- completed with the flags that are required, and every token that the server answered with had
-- TOKEN_PROTOCOL.
pub internal_open-Negotiated :
    (r d : Remctl)
    → internal_open r ≡ (true, d)
    → 1 < d.protocol
    → Negotiated (next_handshake r.world.handshakes).0.rounds
unfolding internal_open
internal_open-Negotiated r d e more =
    let taken = next_handshake r.world.handshakes in
    subst (λ x. Secure taken.0.rounds x) e
      (open_with-Secure taken.0 (record r { world = record r.world { handshakes = taken.1 } })) more
