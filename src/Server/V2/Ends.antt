-- ===== src/Server/V2/Ends.antt =====
-- The loops of the server end on every finite sequence of tokens.
use remctl.Base.{
  ℕ, zero, suc, ◌+◌, ◌≤◌, ◌<◌, Bool, true, false, not, ◌||◌, ◌==◌, Option, none, some, [], ◌∷◌,
  ◌++◌, length, leb, ltb, Bytes, arith, codes,
}
use remctl.Protocol.{
  bad_token, ErrorCode, unexpected_message, toomuch_data, bad_command, token_max_data,
}
use remctl.Protocol.Message
use remctl.Channel.{Received, token, failed}
use remctl.Server.Session.{Client, M, pure, set_keepalive, set_fatal, recv_token, ◌>>◌}
use remctl.Server.Frugal.{
  Post, Leaves, Leaves-weaken, to_come, Taken, Frugal, Post-bind, recv_token_takes, Frugal-apply,
  Frugal-set_keepalive, Frugal-set_fatal, Post-if, Post-then, frugal_rules,
}
use remctl.Server.Frugal.Messages.{Frugal-error, Frugal-send_version}
use remctl.Server.Callbacks.{error}
use remctl.Server.V2.Messages.{send_version}
use remctl.Server.V2.{
  is_answered, report, read_token, is_version, check_continuation, read_continuation,
  is_bad_continue, room_left, Collected, abandoned, abandon, collect,
}

-- An answer to a failed token keeps the number of tokens to come; a token is passed on.
report_takes : (n : ℕ) (r : Received) (c : Client) → Taken n r c → Post (Taken n) (report r c)
unfolding report
report_takes n (token tok) c h = h
report_takes n (failed status) c h =
    Post-if (Taken n) (is_answered status) _ _ c
      (Post-then (Taken n) (error bad_token (codes "Invalid token")) (failed status) c
        (Frugal-error bad_token (codes "Invalid token")) (λ c' le. omega arith))
      h

pub read_token_takes : (c : Client) → Post (Taken (to_come c)) (read_token c)
unfolding read_token
read_token_takes c =
    Post-bind (Taken (to_come c)) (Taken (to_come c)) recv_token report c (recv_token_takes c)
      (λ r c' h. report_takes (to_come c) r c' h)

-- A continuation that comes is one of the tokens to come.
abbrev Continued : ℕ → Option Bytes → Client → Type 0
Continued n none c = to_come c ≤ n
Continued n (some tok) c = to_come c < n

none_takes :
    {A : Type 0} (n : ℕ) (m : M A) (c : Client)
    → to_come c ≤ n
    → Frugal m
    → Post (Continued n) ((m >> pure none) c)
none_takes n m c le h = Post-then (Continued n) m none c h (λ c' le'. omega arith)

check_takes :
    (n : ℕ) (r : Received) (c : Client) → Taken n r c → Post (Continued n) (check_continuation r c)
unfolding check_continuation
check_takes n (failed status) c h = none_takes n (set_fatal true) c h (Frugal-set_fatal true)
check_takes n (token []) c h = tt
check_takes n (token (p0 ∷ [])) c h = tt
check_takes n (token (p0 ∷ p1 ∷ rest)) c h =
    Post-if (Continued n) (not (is_version p0)) _ _ c
      (none_takes n send_version c (omega arith) Frugal-send_version)
      (Post-if (Continued n) (p1 == Message.quit) _ _ c
        (none_takes n (set_keepalive false) c (omega arith) (Frugal-set_keepalive false))
        (Post-if (Continued n) (not (p1 == Message.command)) _ _ c
          (none_takes n (error unexpected_message (codes "Unexpected message")) c (omega arith)
            (Frugal-error unexpected_message (codes "Unexpected message")))
          h))

read_continuation_takes : (c : Client) → Post (Continued (to_come c)) (read_continuation c)
unfolding read_continuation
read_continuation_takes c =
    Post-bind (Taken (to_come c)) (Continued (to_come c)) read_token check_continuation c
      (read_token_takes c) (λ r c' h. check_takes (to_come c) r c' h)

Frugal-abandon : (code : ErrorCode) (message : Bytes) → Frugal (abandon code message)
unfolding abandon
Frugal-abandon code message = search (frugal_rules, Frugal-error)

-- What follows a continuation, from the same of the loop with less fuel.
next_ends :
    (fuel n : ℕ) (buffer : Bytes) (next : Option Bytes) (c : Client)
    → ((tok : Bytes) (c' : Client)
        → to_come c' < fuel
        → Leaves (to_come c') (collect fuel tok buffer true c'))
    → n ≤ fuel
    → Continued n next c
    → Leaves n (
        (elim next as (λ x. M Collected) [
          | none ↦ pure (abandoned false)
          | some tok ↦ collect fuel tok buffer true
        ])
          c)
next_ends fuel n buffer none c ih le h = h
next_ends fuel n buffer (some tok) c ih le h =
    Leaves-weaken (to_come c) n (collect fuel tok buffer true c) (omega arith)
      (ih tok c (omega arith))

-- The loop over continued tokens, with more fuel than tokens to come.
pub collect_ends :
    (fuel : ℕ) (tok buffer : Bytes) (continued : Bool) (c : Client)
    → to_come c < fuel
    → Leaves (to_come c) (collect fuel tok buffer continued c)
unfolding collect
collect_ends zero tok buffer continued c h = absurd (omega arith)
collect_ends (suc fuel) [] buffer continued c h = tt
collect_ends (suc fuel) (p0 ∷ []) buffer continued c h = tt
collect_ends (suc fuel) (p0 ∷ p1 ∷ []) buffer continued c h = tt
collect_ends (suc fuel) (p0 ∷ p1 ∷ p2 ∷ []) buffer continued c h = tt
collect_ends (suc fuel) (p0 ∷ p1 ∷ p2 ∷ p3 ∷ bytes) buffer continued c h =
    Post-bind (λ a c'. to_come c' ≤ to_come c) (λ r c'. to_come c' ≤ to_come c)
      (set_keepalive (not (p2 == 0))) _ c (omega arith)
      λ a c' le.
        Post-if (λ r d. to_come d ≤ to_come c) (ltb token_max_data (4 + length bytes)) _ _ c'
          (Frugal-apply (Frugal-abandon toomuch_data (codes "Too much data")) c' (to_come c) le)
          (Post-if (λ r d. to_come d ≤ to_come c) (is_bad_continue p3 continued) _ _ c'
            (Frugal-apply (Frugal-abandon bad_command (codes "Invalid command token")) c'
              (to_come c) le)
            (Post-if (λ r d. to_come d ≤ to_come c) (leb (room_left (length buffer)) (length bytes))
              _ _ c'
              (Frugal-apply (Frugal-abandon toomuch_data (codes "Too much data")) c' (to_come c) le)
              (Post-if (λ r d. to_come d ≤ to_come c) (p3 == 1 || p3 == 2) _ _ c'
                (Post-bind (Continued (to_come c')) (λ r d. to_come d ≤ to_come c) read_continuation
                  _ c' (read_continuation_takes c')
                  λ next d taken. Leaves-weaken (to_come c') (to_come c) _ le (
                    next_ends fuel (to_come c') (buffer ++ bytes) next d
                      (λ tok. collect_ends fuel tok (buffer ++ bytes) true) (omega arith) taken))
                le)))
