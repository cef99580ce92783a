-- ===== src/Server/Log/Hidden.antt =====
-- What the log does not show.
use remctl.Base.{
  ℕ, ◌+◌, ◌≤◌, ◌≡◌, ◌≢◌, refl, ap, ◌∙◌, ◌⊎◌, inl, inr, true, ◌&&◌, Option, some, List, [], ◌∷◌,
  ◌++◌, map, ltb, ==_refl, Bytes, All, arith,
}
use remctl.Server.Rule.{Rule, StdinArg, last, position}
use remctl.Server.Commands.Nuls.{is_last}
use remctl.Server.Log.{
  in_logmask, is_stdin, logged_arg, logged_args, printable, logged_command, server_log_command,
}

-- The index stands in the log mask, before any zero.
abbrev pub Named : List ℕ → ℕ → Type 0
Named logmask i =
    (before : List ℕ) × (after : List ℕ) × (logmask ≡ before ++ i ∷ after) × All (λ j. j ≢ 0) before

-- The argument at the index, with those behind it, is the one for standard input.
abbrev pub ToStdin : StdinArg → ℕ → List Bytes → Type 0
ToStdin last i behind = behind ≡ []
ToStdin (position k) i behind = k ≡ i

abbrev pub Secret : Rule → ℕ → List Bytes → Type 0
Secret rule i behind = (i ≢ 0) × (Named rule.logmask i ⊎ ToStdin rule.stdin_arg i behind)

-- Vectors of the same length that differ in secret arguments only.
abbrev pub SamePublic : Rule → ℕ → List Bytes → List Bytes → Type 0
SamePublic rule i [] [] = Unit {0}
SamePublic rule i [] (b ∷ argv') = ⊥
SamePublic rule i (a ∷ argv) [] = ⊥
SamePublic rule i (a ∷ argv) (b ∷ argv') =
    ((a ≡ b) ⊎ Secret rule i argv) × SamePublic rule (i + 1) argv argv'

named_hit :
    (before after : List ℕ) (i : ℕ)
    → i ≢ 0
    → All (λ j. j ≢ 0) before
    → in_logmask (before ++ i ∷ after) i ≡ true
unfolding in_logmask
named_hit [] after i h all = ground (arith, ==_refl i)
named_hit (j ∷ before) after i h (p, all) = ground (arith, named_hit before after i h all)

stdin_hit :
    (stdin_arg : StdinArg) (i : ℕ) (behind : List Bytes)
    → i ≢ 0
    → ToStdin stdin_arg i behind
    → is_stdin stdin_arg i behind ≡ true
unfolding is_stdin is_last
stdin_hit last i [] h e = ground arith
stdin_hit last i (b ∷ behind) h e = absurd (cc e)
stdin_hit (position k) i behind h e = ground arith

-- The last argument is the last in both vectors.
is_last-same :
    (rule : Rule) (i : ℕ) (argv argv' : List Bytes)
    → SamePublic rule i argv argv'
    → is_last argv ≡ is_last argv'
unfolding is_last
is_last-same rule i [] [] h = refl
is_last-same rule i [] (b ∷ argv') h = absurd h
is_last-same rule i (a ∷ argv) [] h = absurd h
is_last-same rule i (a ∷ argv) (b ∷ argv') h = refl

is_stdin-same :
    (stdin_arg : StdinArg) (i : ℕ) (behind behind' : List Bytes)
    → is_last behind ≡ is_last behind'
    → is_stdin stdin_arg i behind ≡ is_stdin stdin_arg i behind'
unfolding is_stdin
is_stdin-same last i behind behind' e = ap (λ b. ltb 0 i && b) e
is_stdin-same (position k) i behind behind' e = refl

logged_arg-same :
    (rule : Rule) (i : ℕ) (a : Bytes) (behind behind' : List Bytes)
    → is_last behind ≡ is_last behind'
    → logged_arg (some rule) i a behind ≡ logged_arg (some rule) i a behind'
unfolding logged_arg
logged_arg-same rule i a behind behind' e =
    rw (is_stdin-same rule.stdin_arg i behind behind' e) refl

logged_arg-Secret :
    (rule : Rule) (i : ℕ) (a b : Bytes) (behind : List Bytes)
    → Secret rule i behind
    → logged_arg (some rule) i a behind ≡ logged_arg (some rule) i b behind
unfolding logged_arg
logged_arg-Secret rule i a b behind (h, inr stdin) =
    rw (stdin_hit rule.stdin_arg i behind h stdin) refl
logged_arg-Secret rule i a b behind (h, inl (before, after, e, all)) =
    rw (ap (λ m. in_logmask m i) e ∙ named_hit before after i h all) refl

logged_args-SamePublic :
    (rule : Rule) (i : ℕ) (argv argv' : List Bytes)
    → SamePublic rule i argv argv'
    → logged_args (some rule) i argv ≡ logged_args (some rule) i argv'
unfolding logged_args
logged_args-SamePublic rule i [] [] h = refl
logged_args-SamePublic rule i [] (b ∷ argv') h = absurd h
logged_args-SamePublic rule i (a ∷ argv) [] h = absurd h
logged_args-SamePublic rule i (a ∷ argv) (b ∷ argv') (inl e, h) = cc (
  e,
  logged_arg-same rule i a argv argv' (is_last-same rule (i + 1) argv argv' h),
  logged_args-SamePublic rule (i + 1) argv argv' h,
)
logged_args-SamePublic rule i (a ∷ argv) (b ∷ argv') (inr secret, h) = cc (
  logged_arg-Secret rule i a b argv secret,
  logged_arg-same rule i b argv argv' (is_last-same rule (i + 1) argv argv' h),
  logged_args-SamePublic rule (i + 1) argv argv' h,
)

-- The log of a command says nothing of its secret arguments: those behind the command that the log
-- mask of the rule names, before any zero, and the one that goes to standard input.
pub server_log_command-SamePublic :
    (rule : Rule) (argv argv' : List Bytes) (user : Bytes)
    → SamePublic rule 0 argv argv'
    → server_log_command argv (some rule) user ≡ server_log_command argv' (some rule) user
unfolding server_log_command logged_command
server_log_command-SamePublic rule argv argv' user h =
    rw (logged_args-SamePublic rule 0 argv argv' h) refl

abbrev pub IsPrintable : ℕ → Type 0
IsPrintable c = (c ≡ 9) ⊎ ((32 ≤ c) × (c ≤ 126))

printable-IsPrintable : (c : ℕ) → IsPrintable (printable c)
unfolding printable
printable-IsPrintable c = grind arith

map-IsPrintable : (string : Bytes) → All IsPrintable (map printable string)
map-IsPrintable [] = tt
map-IsPrintable (c ∷ string) = (printable-IsPrintable c, map-IsPrintable string)

-- The arguments stand in the log as printable ASCII characters and tabs only.
pub logged_command-IsPrintable :
    (argv : List Bytes) (rule : Option Rule) → All IsPrintable (logged_command argv rule)
unfolding logged_command
logged_command-IsPrintable argv rule = map-IsPrintable _
