-- ===== src/Server/V2/Serve.antt =====
-- The message loop of the server ends on every finite sequence of tokens, over what runs a command.
use remctl.Base.{
  ℕ, zero, suc, ◌≤◌, ◌<◌, ◌≡◌, ◌⊎◌, inl, inr, refl, Bool, true, false, not, ◌==◌, Option, none,
  some, List, [], ◌∷◌, if◌then◌else◌, Bytes, arith, codes,
}
use remctl.Base.Int.{ℤ}
use remctl.Protocol.{unknown_message}
use remctl.Protocol.Message
use remctl.Channel.{Received, token, failed}
use remctl.Server.Session.{Client, M, Run, done, fault, died, overread, spent, pure, client, ◌>>=◌}
use remctl.Server.Parse.{Parsed, parsed, refused}
use remctl.Server.Frugal.{
  Leaves, Leaves-weaken, to_come, Taken, Frugal, Post-bind, Post-if, Frugal-apply, Frugal-bind,
  Frugal-pure, Frugal-if, Frugal-set_keepalive, frugal_rules,
}
use remctl.Server.Frugal.Messages.{Frugal-error, Frugal-send_version, Frugal-send_noop}
use remctl.Server.V2.{read_token, is_version, Collected, complete, abandoned, collect}
use remctl.Server.V2.Ends.{read_token_takes, collect_ends}
use remctl.Server.V2.Handle.{
  command_or_error, not_fatal, run_if_parsed, run_collected, handle_command, handle_token, serve,
  handle_messages,
}

Frugal-command_or_error : (p : Parsed) → Frugal (command_or_error p)
unfolding command_or_error
Frugal-command_or_error (parsed argv) = search frugal_rules
Frugal-command_or_error (refused code message) = search (frugal_rules, Frugal-error)
Frugal-command_or_error Parsed.overread = search frugal_rules

Frugal-not_fatal : Frugal not_fatal
unfolding not_fatal
Frugal-not_fatal = search frugal_rules

ended :
    (n : ℕ) (r : Run (Unit {0})) {r' : Run (Unit {0})}
    → Leaves n r
    → r' ≡ r
    → (r' ≡ fault died) ⊎ (r' ≡ fault overread) ⊎ (d : Client) × (r' ≡ done tt d) × (to_come d ≤ n)
ended n (done tt d) h e = inr (inr (d, e, h))
ended n (fault died) h e = inl e
ended n (fault overread) h e = inr (inl e)
ended n (fault spent) h e = absurd h

module _ (run_command : List Bytes → M ℤ)
    (frugal : (argv : List Bytes) → Frugal (run_command argv)) where
  Frugal-run_if_parsed : (o : Option (List Bytes)) → Frugal (run_if_parsed run_command o)
  unfolding run_if_parsed
  Frugal-run_if_parsed none = Frugal-not_fatal
  Frugal-run_if_parsed (some argv) = search (frugal_rules, frugal, Frugal-not_fatal)

  Frugal-run_collected : (collected : Collected) → Frugal (run_collected run_command collected)
  unfolding run_collected
  Frugal-run_collected (abandoned result) = search frugal_rules
  Frugal-run_collected (complete buffer) =
      search (frugal_rules, Frugal-command_or_error, Frugal-run_if_parsed)

  Frugal-handle_command : (tok : Bytes) → Frugal (handle_command run_command tok)
  unfolding handle_command ◌>>=◌
  Frugal-handle_command tok = record {
    leaves = λ c.
        Post-bind (λ r c'. to_come c' ≤ to_come c) (λ r c'. to_come c' ≤ to_come c)
          (collect (suc (to_come c)) tok [] false) (run_collected run_command) c
          (collect_ends (suc (to_come c)) tok [] false c (omega arith))
          (λ r c' le. Frugal-apply (Frugal-run_collected r) c' (to_come c) le);
  }

  Frugal-handle_token : (tok : Bytes) → Frugal (handle_token run_command tok)
  unfolding handle_token
  Frugal-handle_token [] = search frugal_rules
  Frugal-handle_token (p0 ∷ []) = search frugal_rules
  Frugal-handle_token (p0 ∷ p1 ∷ rest) = Frugal-if (not (is_version p0)) Frugal-send_version (
      Frugal-if (p1 == Message.command) (Frugal-handle_command (p0 ∷ p1 ∷ rest)) (
        Frugal-if (p1 == Message.noop) Frugal-send_noop (
          Frugal-if (p1 == Message.quit)
            (Frugal-bind (Frugal-set_keepalive false) (λ x. Frugal-pure false))
            (Frugal-error unknown_message (codes "Unknown message")))))

  keepalive_ends :
      (fuel n : ℕ) (keepalive : Bool) (c : Client)
      → Leaves n (serve run_command fuel c)
      → to_come c ≤ n
      → Leaves n (
          (elim keepalive as (λ x. M (Unit {0})) [
            | true ↦ serve run_command fuel
            | false ↦ pure tt
          ])
            c)
  keepalive_ends fuel n true c h le = h
  keepalive_ends fuel n false c h le = le

  -- The next round of the loop, from the same of the loop with less fuel.
  round_ends :
      (fuel n : ℕ) (go_on : Bool) (c : Client)
      → ((c' : Client) → to_come c' < fuel → Leaves (to_come c') (serve run_command fuel c'))
      → to_come c < fuel
      → to_come c ≤ n
      → Leaves n (
          (if go_on
              then (client >>= λ d. elim d.keepalive as (λ x. M (Unit {0})) [
                | true ↦ serve run_command fuel
                | false ↦ pure tt
              ])
              else pure tt)
            c)
  unfolding ◌>>=◌
  round_ends fuel n go_on c ih less le =
      Post-if (λ r d. to_come d ≤ n) go_on _ _ c
        (keepalive_ends fuel n c.keepalive c
          (Leaves-weaken (to_come c) n (serve run_command fuel c) le (ih c less)) le)
        le

  after_token :
      (fuel n : ℕ) (r : Received) (c : Client)
      → ((c' : Client) → to_come c' < fuel → Leaves (to_come c') (serve run_command fuel c'))
      → n ≤ fuel
      → Taken n r c
      → Leaves n (
          (elim r as (λ x. M (Unit {0})) [
            | token tok ↦
                (handle_token run_command tok >>= λ go_on.
                if go_on
                then (client >>= λ d. elim d.keepalive as (λ x. M (Unit {0})) [
                  | true ↦ serve run_command fuel
                  | false ↦ pure tt
                ])
                else pure tt)
            | failed status ↦ pure tt
          ])
            c)
  after_token fuel n (failed status) c ih le h = h
  after_token fuel n (token tok) c ih le h =
      Post-bind (λ a c'. to_come c' ≤ to_come c) (λ r d. to_come d ≤ n)
        (handle_token run_command tok) _ c ((Frugal-handle_token tok).leaves c)
        (λ go_on c' le'. round_ends fuel n go_on c' ih (omega arith) (omega arith))

  serve_ends :
      (fuel : ℕ) (c : Client) → to_come c < fuel → Leaves (to_come c) (serve run_command fuel c)
  unfolding serve
  serve_ends zero c h = absurd (omega arith)
  serve_ends (suc fuel) c h =
      Post-bind (Taken (to_come c)) (λ r d. to_come d ≤ to_come c) read_token _ c
        (read_token_takes c)
        (λ r d taken. after_token fuel (to_come c) r d (serve_ends fuel) (omega arith) taken)

  Frugal-handle_messages : Frugal (handle_messages run_command)
  unfolding handle_messages ◌>>=◌
  Frugal-handle_messages = record {
    leaves = λ c. serve_ends (suc (to_come c)) (record c { keepalive = true }) (omega arith);
  }

  -- Where what runs a command never runs out of fuel and leaves no more tokens to come than it
  -- finds, the message loop of protocol version two comes to an end, whatever finite sequence of
  -- tokens comes in and whatever the sends come to: the process dies, it reads behind the end of a token, or the loop
  -- returns, with no more tokens to come than at its start.
  pub handle_messages_ends :
      (c : Client)
      → (handle_messages run_command c ≡ fault died)
        ⊎ (handle_messages run_command c ≡ fault overread)
        ⊎ (d : Client) × (handle_messages run_command c ≡ done tt d) × (to_come d ≤ to_come c)
  handle_messages_ends c =
      ended (to_come c) (handle_messages run_command c) (Frugal-handle_messages.leaves c) refl
