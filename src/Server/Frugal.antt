-- ===== src/Server/Frugal.antt =====
-- What bounds the reading of the server: an action never runs out of fuel, and takes tokens from
-- those to come, or leaves them.
pub mod Messages
use remctl.Base.{
  ℕ, ◌≤◌, ◌<◌, ◌≡◌, refl, ap, Bool, true, false, Option, none, some, List, [], ◌∷◌, length, leb,
  ltb, if◌then◌else◌, Bytes, arith,
}
use remctl.Base.Int.{ℤ}
use remctl.Protocol.{ErrorCode, TokenStatus, token_ok}
use remctl.Channel.{
  Channel, Received, token, failed, transmit, token_send_priv, deliver, token_recv_priv,
}
use remctl.Server.Session.{
  Client, Fault, died, overread, spent, Run, done, fault, M, pure, raise, client, set_keepalive,
  set_fatal, send_token, recv_token, ◌>>=◌, ◌>>◌,
}

-- What holds of a result; running out of fuel is excluded.
abbrev pub Post {ℓ} : {A : Type ℓ} → (A → Client → Type 0) → Run A → Type 0
Post Q (done a c) = Q a c
Post Q (fault died) = Unit {0}
Post Q (fault overread) = Unit {0}
Post Q (fault spent) = ⊥

abbrev pub to_come : Client → ℕ
to_come c = length c.channel.incoming

-- The action leaves at most `n` tokens to come.
abbrev pub Leaves {ℓ} : {A : Type ℓ} → ℕ → Run A → Type 0
Leaves n r = Post (λ a c. to_come c ≤ n) r

pub record Frugal {ℓ} {A : Type ℓ} (m : M A) : Type 0 where
  pub leaves : (c : Client) → Leaves (to_come c) (m c)

bind_parts {ℓ κ} :
    {A : Type ℓ} {B : Type κ} (Q : A → Client → Type 0) (R : B → Client → Type 0) (r : Run A)
    (f : A → M B)
    → Post Q r
    → ((a : A) (c : Client) → Q a c → Post R (f a c))
    → Post R (elim r as (λ x. Run B) [ done a d ↦ f a d | fault e ↦ fault e ])
bind_parts Q R (done a d) f h k = k a d h
bind_parts Q R (fault died) f h k = tt
bind_parts Q R (fault overread) f h k = tt
bind_parts Q R (fault spent) f h k = h

-- The rule for a bind.
pub Post-bind {ℓ κ} :
    {A : Type ℓ} {B : Type κ} (Q : A → Client → Type 0) (R : B → Client → Type 0) (m : M A)
    (f : A → M B) (c : Client)
    → Post Q (m c)
    → ((a : A) (c' : Client) → Q a c' → Post R (f a c'))
    → Post R ((m >>= f) c)
unfolding ◌>>=◌
Post-bind Q R m f c h k = bind_parts Q R (m c) f h k

pub Leaves-weaken {ℓ} : {A : Type ℓ} (n k : ℕ) (r : Run A) → n ≤ k → Leaves n r → Leaves k r
Leaves-weaken n k (done a c) h le = omega arith
Leaves-weaken n k (fault died) h le = tt
Leaves-weaken n k (fault overread) h le = tt
Leaves-weaken n k (fault spent) h le = le

pub Frugal-apply {ℓ} :
    {A : Type ℓ} {m : M A} → Frugal m → (c : Client) (n : ℕ) → to_come c ≤ n → Leaves n (m c)
Frugal-apply {m = m} h c n le = Leaves-weaken (to_come c) n (m c) le (h.leaves c)

pub Frugal-bind {ℓ κ} :
    {A : Type ℓ} {B : Type κ} {m : M A} {f : A → M B}
    → Frugal m
    → ((a : A) → Frugal (f a))
    → Frugal (m >>= f)
Frugal-bind {m = m} {f = f} h k = record {
  leaves = λ c.
      Post-bind (λ a c'. to_come c' ≤ to_come c) (λ b c'. to_come c' ≤ to_come c) m f c (h.leaves c)
        (λ a c' le. Leaves-weaken (to_come c') (to_come c) (f a c') le ((k a).leaves c'));
}

pub Frugal-pure {ℓ} : {A : Type ℓ} (a : A) → Frugal (pure a)
Frugal-pure a = record { leaves = λ c. omega arith }

pub Frugal-died {ℓ} : (A : Type ℓ) → Frugal (raise {A = A} died)
Frugal-died A = record { leaves = λ c. tt }

pub Frugal-overread {ℓ} : (A : Type ℓ) → Frugal (raise {A = A} overread)
Frugal-overread A = record { leaves = λ c. tt }

pub Frugal-client : Frugal client
Frugal-client = record { leaves = λ c. omega arith }

pub Frugal-set_keepalive : (b : Bool) → Frugal (set_keepalive b)
Frugal-set_keepalive b = record { leaves = λ c. omega arith }

pub Frugal-set_fatal : (b : Bool) → Frugal (set_fatal b)
Frugal-set_fatal b = record { leaves = λ c. omega arith }

transmit_keeps :
    (tok : Bytes) (outcomes : List TokenStatus) (ch : Channel)
    → (transmit tok outcomes ch).1.incoming ≡ ch.incoming
unfolding transmit
transmit_keeps tok outcomes ch = ground arith

send_token_keeps :
    (tok : Bytes) (c : Client) → length (token_send_priv tok c.channel).1.incoming ≤ to_come c
unfolding token_send_priv
send_token_keeps tok c = ground (arith, transmit_keeps tok c.channel.outcomes c.channel)

pub Frugal-send_token : (tok : Bytes) → Frugal (send_token tok)
unfolding send_token
Frugal-send_token tok = record { leaves = λ c. send_token_keeps tok c }

-- A token that comes in is one of those to come.
abbrev pub Taken : ℕ → Received → Client → Type 0
Taken n (token tok) c = to_come c < n
Taken n (failed status) c = to_come c ≤ n

deliver_takes :
    (rs : List Received) (c : Client)
    → rs ≡ c.channel.incoming
    → Taken (length rs) (deliver rs c.channel).0 (record c { channel = (deliver rs c.channel).1 })
unfolding deliver
deliver_takes [] c e = omega (arith, ap (λ (l : List Received). length l) e)
deliver_takes (token tok ∷ rest) c e = omega arith
deliver_takes (failed status ∷ rest) c e = omega arith

pub recv_token_takes : (c : Client) → Post (Taken (to_come c)) (recv_token c)
unfolding recv_token token_recv_priv
recv_token_takes c = deliver_takes c.channel.incoming c refl

Taken-leaves : (n : ℕ) (r : Received) (c : Client) → Taken n r c → to_come c ≤ n
Taken-leaves n (token tok) c h = omega arith
Taken-leaves n (failed status) c h = h

pub Post-map {ℓ} :
    {A : Type ℓ} (Q R : A → Client → Type 0) (r : Run A)
    → Post Q r
    → ((a : A) (c : Client) → Q a c → R a c)
    → Post R r
Post-map Q R (done a c) h k = k a c h
Post-map Q R (fault died) h k = tt
Post-map Q R (fault overread) h k = tt
Post-map Q R (fault spent) h k = h

pub Frugal-recv_token : Frugal recv_token
Frugal-recv_token = record {
  leaves = λ c.
      Post-map (Taken (to_come c)) (λ r c'. to_come c' ≤ to_come c) (recv_token c)
        (recv_token_takes c) (λ r c' h. Taken-leaves (to_come c) r c' h);
}

pub Frugal-if {ℓ} :
    {A : Type ℓ} (b : Bool) {x y : M A} → Frugal x → Frugal y → Frugal (if b then x else y)
Frugal-if true hx hy = hx
Frugal-if false hx hy = hy

-- An action that is followed by a value.
pub Post-then {ℓ κ} :
    {A : Type ℓ} {B : Type κ} (Q : B → Client → Type 0) (m : M A) (b : B) (c : Client)
    → Frugal m
    → ((c' : Client) → to_come c' ≤ to_come c → Q b c')
    → Post Q ((m >> pure b) c)
Post-then Q m b c h k =
    Post-bind (λ a c'. to_come c' ≤ to_come c) Q m (λ a. pure b) c (h.leaves c) (λ a c' le. k c' le)

pub Post-if {ℓ} :
    {A : Type ℓ} (Q : A → Client → Type 0) (b : Bool) (x y : M A) (c : Client)
    → Post Q (x c)
    → Post Q (y c)
    → Post Q ((if b then x else y) c)
Post-if Q true x y c hx hy = hx
Post-if Q false x y c hx hy = hy

pub ruleset frugal_rules = (
  Frugal-bind, Frugal-pure, Frugal-died, Frugal-overread, Frugal-client, Frugal-set_keepalive,
  Frugal-set_fatal, Frugal-send_token, Frugal-recv_token, Frugal-if,
)
