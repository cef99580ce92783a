-- ===== src/Server/Commands/Passed.antt =====
-- What the program gets of the arguments of the request.
use remctl.Base.{
  ℕ, suc, ◌+◌, ◌≡◌, ◌≢◌, refl, Bool, true, false, Bool-cases, ◌⊎◌, inl, inr, Option, none, some,
  List, [], ◌∷◌, ◌++◌, length, Bytes, arith, ◌==◌, if◌then◌else◌,
}
use remctl.Server.Rule.{Rule}
use remctl.Server.Commands.Nuls.{has_nul, is_exempt, arg_has_nul}
use remctl.Server.Commands.Argv.{xstrndup, splice, stdin_index, program_argv, create_argv_command}

xstrndup_whole : (arg : Bytes) → has_nul arg ≡ false → xstrndup arg ≡ arg
unfolding xstrndup has_nul
xstrndup_whole [] h = refl
xstrndup_whole (b ∷ arg) h = ground (arith, xstrndup_whole arg)

-- The arguments from index `i` on, without the one at index `k`; and that one.
abbrev pub without : ℕ → ℕ → List Bytes → List Bytes
without k i [] = []
without k i (arg ∷ args) = let rest = without k (i + 1) args in if i == k then rest else arg ∷ rest

abbrev pub only : ℕ → ℕ → List Bytes → Option Bytes
only k i [] = none
only k i (arg ∷ args) = let rest = only k (i + 1) args in if i == k then some arg else rest

not_here : (i k : ℕ) → (i == k) ≡ false → i ≢ k
not_here i k h e = ground arith

-- The argument that may hold a nul is the one for standard input.
exempt_is_stdin :
    (rule : Rule) (i : ℕ) (args : List Bytes) (count : ℕ)
    → i + suc (length args) ≡ count
    → is_exempt (some rule) false i args ≡ true
    → i ≡ stdin_index rule.stdin_arg count
unfolding is_exempt stdin_index
exempt_is_stdin rule i [] count e h = ground arith
exempt_is_stdin rule i (next ∷ args) count e h = ground arith

arg_has_nul-cons :
    (rule : Option Rule) (help : Bool) (i : ℕ) (arg : Bytes) (args : List Bytes)
    → arg_has_nul rule help i (arg ∷ args) ≡ false
    → ((is_exempt rule help i args ≡ true) ⊎ (has_nul arg ≡ false))
      × (arg_has_nul rule help (i + 1) args ≡ false)
unfolding arg_has_nul
arg_has_nul-cons rule help i arg args h = ground arith

module _ (rule : Rule) (count : ℕ) where
  abbrev stdin : ℕ
  stdin = stdin_index rule.stdin_arg count

  -- An argument that is passed on holds no nul.
  kept :
      (i : ℕ) (arg : Bytes) (args : List Bytes)
      → i + suc (length args) ≡ count
      → (is_exempt (some rule) false i args ≡ true) ⊎ (has_nul arg ≡ false)
      → (i == stdin) ≡ false
      → xstrndup arg ≡ arg
  kept i arg args e (inl exempt) elsewhere =
      absurd (not_here i stdin elsewhere (exempt_is_stdin rule i args count e exempt))
  kept i arg args e (inr clean) elsewhere = xstrndup_whole arg clean

  splice-whole :
      (i : ℕ) (args : List Bytes)
      → i + length args ≡ count
      → arg_has_nul (some rule) false i args ≡ false
      → ((splice stdin i args).args ≡ without stdin i args)
        × ((splice stdin i args).input ≡ only stdin i args)
  unfolding splice
  splice-whole i [] e h = (refl, refl)
  splice-whole i (arg ∷ args) e h =
      let (clean, rest) = arg_has_nul-cons (some rule) false i arg args h in
      let (same_args, same_input) = splice-whole (i + 1) args (omega arith) rest in
      elim (Bool-cases (i == stdin)) [
        | inl here ↦ rw here (same_args, refl)
        | inr elsewhere ↦
            rw elsewhere (cc (kept i arg args e clean elsewhere, same_args), same_input)
      ]

-- Where no argument outside standard input holds a nul octet, the program gets the arguments of the
-- request as they are, in their order, without the one for standard input, which is its input.
pub create_argv_command-without :
    (path_sudo : Bytes) (rule : Rule) (arg : Bytes) (args : List Bytes)
    → arg_has_nul (some rule) false 1 args ≡ false
    → create_argv_command path_sudo rule (arg ∷ args) ≡ record {
      args =
          program_argv path_sudo rule
          ++ without (stdin_index rule.stdin_arg (suc (length args))) 1 args;
      input = only (stdin_index rule.stdin_arg (suc (length args))) 1 args;
    }
unfolding create_argv_command
create_argv_command-without path_sudo rule arg args h =
    let (same_args, same_input) = splice-whole rule (suc (length args)) 1 args (omega arith) h in
    λ i. record { args = program_argv path_sudo rule ++ same_args i; input = same_input i }
