-- ===== src/Protocol/Wire.antt =====
-- The payload that the protocol describes for a command: the number of arguments, then each
-- argument behind its length.
use remctl.Base.{◌<◌, ◌^◌, List, [], ◌∷◌, ◌++◌, length, All, Bytes, htonl}

unfoldable pub body : List Bytes → Bytes
body [] = []
body (arg ∷ args) = htonl (length arg) ++ arg ++ body args

unfoldable pub payload : List Bytes → Bytes
payload args = htonl (length args) ++ body args

-- Each argument's length can be written in 32 bits.
abbrev pub FitsWire : List Bytes → Type 0
FitsWire = All (λ arg. length arg < 2 ^ 32)
