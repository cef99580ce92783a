-- ===== src/Server/Session.antt =====
-- `struct client` of server/internal.h, and the actions of the code that serves one client: they
-- read and change the client, and may end in a fault.
use remctl.Base.{◌≡◌, refl, ℕ, Bool, List, [], Bytes}
use remctl.Protocol.{TokenStatus}
use remctl.Channel.{Channel, Received, token_send_priv, token_recv_priv}

-- The functions that `setup`, `finish` and `error` are set to: those of server-v1.c, server-v2.c and
-- server-ssh.c.
pub data Handlers : Type 0 where
  v1 v2 ssh : Handlers

-- What remctl-shell has written to its standard output and standard error, and whether each write
-- to come is taken whole or fails; where these have run out, writes are taken.
pub record Terminal : Type 0 where
  pub stdout : Bytes
  pub stderr : Bytes
  pub writes : List Bool

abbrev pub blank : Terminal
blank = record { stdout = []; stderr = []; writes = [] }

-- With remctld the file descriptor and the GSS-API context are the channel, and the terminal is not
-- used; with remctl-shell the descriptors are the terminal, and the channel is not used.
pub record Client : Type 0 where
  pub protocol : ℕ
  pub user : Bytes
  pub anonymous : Bool
  pub keepalive : Bool
  pub fatal : Bool
  pub channel : Channel
  pub callbacks : Handlers
  pub terminal : Terminal

-- `die`, a read behind the end of a token, and a loop whose fuel ran out.
pub data Fault : Type 0 where
  died overread spent : Fault

pub data Run {ℓ} (A : Type ℓ) : Type ℓ where
  done : A → Client → Run A
  fault : Fault → Run A

abbrev pub M {ℓ} : Type ℓ → Type ℓ
M A = Client → Run A

infixl 5 ◌>>=◌ ◌>>◌
unfoldable pub ◌>>=◌ {ℓ κ} : {A : Type ℓ} {B : Type κ} → M A → (A → M B) → M B
◌>>=◌ m f c = elim (m c) [ done a c' ↦ f a c' | fault e ↦ fault e ]

abbrev pub ◌>>◌ {ℓ κ} : {A : Type ℓ} {B : Type κ} → M A → M B → M B
m >> k = m >>= λ _. k

abbrev pub pure {ℓ} : {A : Type ℓ} → A → M A
pure a c = done a c

abbrev pub raise {ℓ} : {A : Type ℓ} → Fault → M A
raise e c = fault e

abbrev pub client : M Client
client c = done c c

abbrev pub set_keepalive : Bool → M (Unit {0})
set_keepalive b c = done tt (record c { keepalive = b })

abbrev pub set_fatal : Bool → M (Unit {0})
set_fatal b c = done tt (record c { fatal = b })

abbrev pub set_terminal : Terminal → M (Unit {0})
set_terminal t c = done tt (record c { terminal = t })

unfoldable pub send_token : Bytes → M TokenStatus
send_token tok c =
    let (status, ch) = token_send_priv tok c.channel in done status (record c { channel = ch })

unfoldable pub recv_token : M Received
recv_token c = let (r, ch) = token_recv_priv c.channel in done r (record c { channel = ch })

-- What a bind does, where the first action's result is known.
pub bind_done {ℓ κ} :
    {A : Type ℓ} {B : Type κ} (m : M A) (f : A → M B) (c : Client) {a : A} {c' : Client}
    → m c ≡ done a c'
    → (m >>= f) c ≡ f a c'
unfolding ◌>>=◌
bind_done m f c e = rw (e, ◌>>=◌)

bind_parts {ℓ κ} :
    {A : Type ℓ} {B : Type κ} (r : Run A) (f : A → M B) {b : B} {c' : Client} {r' : Run A}
    → (elim r as (λ x. Run B) [ done a d ↦ f a d | fault e ↦ fault e ]) ≡ done b c'
    → r' ≡ r
    → (a : A) × (d : Client) × (r' ≡ done a d) × (f a d ≡ done b c')
bind_parts (done a d) f h e = (a, d, e, h)
bind_parts (fault x) f h e = absurd (cc h)

-- The parts of a bind that returned.
pub bind-eq-done {ℓ κ} :
    {A : Type ℓ} {B : Type κ} (m : M A) (f : A → M B) (c : Client) {b : B} {c' : Client}
    → (m >>= f) c ≡ done b c'
    → (a : A) × (d : Client) × (m c ≡ done a d) × (f a d ≡ done b c')
unfolding ◌>>=◌
bind-eq-done m f c h = bind_parts (m c) f h refl
