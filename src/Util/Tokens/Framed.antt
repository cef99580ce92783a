-- ===== src/Util/Tokens/Framed.antt =====
-- A token that is sent, and its octets as they are received.
use remctl.Base.{
  ℕ, suc, ◌^◌, ◌≡◌, ◌≤◌, ◌<◌, refl, ap, ◌∙◌, false, [], ◌∷◌, ◌++◌, length, ◌==◌, le→not_ltb, Bytes,
  htonl, ntohl, ntohl-htonl, arith,
}
use remctl.Util.Tokens.{
  Network, octets, got, token_octets, receive_data, received_data, received_length, received_flags,
  token_recv,
}

-- A connection hands out the octets that are to come on it, as many as are asked for, in order.
pub record IsStream {S : Type 0} (net : Network S) (pending : S → Bytes) : Type 0 where
  pub reads :
      (s : S) (front rest : Bytes)
      → pending s ≡ front ++ rest
      → (s' : S) × (net.network_read (length front) s ≡ (octets front, s')) × (pending s' ≡ rest)

module _ {S : Type 0} (net : Network S) (pending : S → Bytes) (stream : IsStream net pending) where
  not_zero : (n : ℕ) → (suc n == 0) ≡ false
  not_zero n = ground arith

  receive_data_reads :
      (max flags : ℕ) (tok rest : Bytes) (s : S)
      → length tok ≤ max
      → pending s ≡ tok ++ rest
      → (s' : S) × (receive_data net max flags (length tok) s ≡ (got flags tok, s'))
        × (pending s' ≡ rest)
  unfolding receive_data received_data
  receive_data_reads max flags [] rest s small e = (s, rw (le→not_ltb max 0 small) refl, e)
  receive_data_reads max flags (x ∷ tok) rest s small e =
      let (s', reads, left) = stream.reads s (x ∷ tok) rest e in
      (s', rw (le→not_ltb max (suc (length tok)) small, not_zero (length tok), reads) refl, left)

  length_octets : (n : ℕ) → n < 2 ^ 32 → ntohl (htonl n) ≡ n
  unfolding htonl
  length_octets n h = ntohl-htonl n [] h

  -- On a connection that hands out its octets in order, the octets of a token, which is no longer
  -- than the limit, are received as this token with its flags, and what lies behind them is still to
  -- come.
  pub token_recv-token_octets :
      (max flags : ℕ) (tok rest : Bytes) (s : S)
      → flags < 256
      → length tok ≤ max
      → length tok < 2 ^ 32
      → pending s ≡ token_octets flags tok ++ rest
      → (s' : S) × (token_recv net max s ≡ (got flags tok, s')) × (pending s' ≡ rest)
  unfolding token_recv received_flags received_length token_octets htonl
  token_recv-token_octets max flags tok rest s octet small fits e =
      let (s1, reads1, left1) =
        stream.reads s (flags ∷ []) (htonl (length tok) ++ tok ++ rest)
          (e ∙ ap (λ f. f ∷ (htonl (length tok) ++ tok ++ rest)) (omega arith)) in
      let (s2, reads2, left2) = stream.reads s1 (htonl (length tok)) (tok ++ rest) left1 in
      let (s3, received, left3) = receive_data_reads max flags tok rest s2 small left2 in
      (s3, rw (reads1, reads2, length_octets (length tok) fits, received) refl, left3)
