-- ===== src/Util/Tokens.antt =====
-- Tokens on a connection (util/tokens.c), over the functions of util/network.c that write and read
-- octets with a timeout.
pub mod Framed
use remctl.Base.{
  ℕ, ◌-◌, ◌%◌, ◌++◌, ◌∷◌, [], length, ltb, ◌==◌, Option, none, some, if◌then◌else◌, Bytes, htonl,
  ntohl,
}
use remctl.Protocol.{
  TokenStatus, token_ok, fail_system, fail_socket, fail_large, fail_eof, fail_timeout, uint32_max,
}

-- The values of errno that are told apart.
pub data Errno : Type 0 where
  epipe econnreset etimedout other_error : Errno

-- What a read comes to.
pub data Octets : Type 0 where
  octets : Bytes → Octets
  read_error : Errno → Octets

-- `network_write` and `network_read`, on a connection in a state.
pub record Network (S : Type 0) : Type 0 where
  pub network_write : Bytes → S → Option Errno × S
  pub network_read : ℕ → S → Octets × S

-- What `token_recv` comes to: a token with its flags, or why there is none.
pub data Reception : Type 0 where
  got : ℕ → Bytes → Reception
  not_got : TokenStatus → Reception

unfoldable pub map_socket_error : Errno → TokenStatus
map_socket_error epipe = fail_eof
map_socket_error econnreset = fail_eof
map_socket_error etimedout = fail_timeout
map_socket_error other_error = fail_socket

-- The octets of a token: its flags in one octet, its length, and its data.
unfoldable pub token_octets : ℕ → Bytes → Bytes
token_octets flags tok = flags % 256 ∷ htonl (length tok) ++ tok

unfoldable pub write_status : Option Errno → TokenStatus
unfolding map_socket_error
write_status none = token_ok
write_status (some errno) = map_socket_error errno

module _ {S : Type 0} (net : Network S) where
  open net use {network_write, network_read}

  unfoldable pub token_send : ℕ → Bytes → S → TokenStatus × S
  unfolding write_status token_octets
  token_send flags tok s =
      if ltb (uint32_max - 1 - 4) (length tok)
      then (fail_system, s)
      else (let (failed, s') = network_write (token_octets flags tok) s in
          (write_status failed, s'))

  unfoldable pub received_data : ℕ → Octets × S → Reception × S
  unfolding map_socket_error
  received_data flags (octets tok, s) = (got flags tok, s)
  received_data flags (read_error errno, s) = (not_got (map_socket_error errno), s)

  -- The data of a token whose flags and length have come; an empty token is not read.
  unfoldable pub receive_data : ℕ → ℕ → ℕ → S → Reception × S
  unfolding received_data
  receive_data max flags size s =
      if ltb max size
      then (not_got fail_large, s)
      else if size == 0
      then (got flags [], s)
      else received_data flags (network_read size s)

  unfoldable pub received_length : ℕ → ℕ → Octets × S → Reception × S
  unfolding receive_data map_socket_error
  received_length max flags (octets bytes, s) = receive_data max flags (ntohl bytes) s
  received_length max flags (read_error errno, s) = (not_got (map_socket_error errno), s)

  unfoldable pub received_flags : ℕ → Octets × S → Reception × S
  unfolding received_length map_socket_error
  received_flags max (octets (flags ∷ rest), s) = received_length max flags (network_read 4 s)
  received_flags max (octets [], s) = (not_got fail_eof, s)
  received_flags max (read_error errno, s) = (not_got (map_socket_error errno), s)

  unfoldable pub token_recv : ℕ → S → Reception × S
  unfolding received_flags
  token_recv max s = received_flags max (network_read 1 s)
