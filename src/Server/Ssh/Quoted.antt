-- ===== src/Server/Ssh/Quoted.antt =====
-- Every list of arguments has a command line that is parsed to it.
use remctl.Base.{
  ℕ, ◌≡◌, refl, ap, ◌∙◌, inl, inr, Bool, true, false, Bool-cases, ◌||◌, some, List, [], ◌∷◌, ◌++◌,
  append_assoc, ◌==◌, if◌then◌else◌, Bytes,
}
use remctl.Server.Acl.Lines.{isspace}
use remctl.Server.Ssh.{
  State, separator, arg, quoted, next_step, escape, follow, add_arg, parse_from,
  server_ssh_parse_command,
}

-- An argument in single quotes, with a backslash before each quote and backslash.
abbrev pub body : Bytes → Bytes
body [] = []
body (c ∷ value) = let rest = body value in if c == 39 || c == 92 then 92 ∷ c ∷ rest else c ∷ rest

abbrev pub quote_arg : Bytes → Bytes
quote_arg value = 39 ∷ (body value ++ 39 ∷ [])

abbrev pub quote_more : List Bytes → Bytes
quote_more [] = []
quote_more (value ∷ args) = 32 ∷ (quote_arg value ++ quote_more args)

-- The quoted arguments with spaces between them.
abbrev pub quote_args : List Bytes → Bytes
quote_args [] = []
quote_args (value ∷ args) = quote_arg value ++ quote_more args

-- An octet that is no backslash.
plain :
    (state : State) (value : Bytes) (c : ℕ) (rest : Bytes)
    → (c == 92) ≡ false
    → parse_from state value (c ∷ rest)
      ≡ follow (next_step state c) value (λ next piece. parse_from next piece rest)
unfolding parse_from
plain state value c [] h = refl
plain state value c (d ∷ rest) h = rw h refl

neither : (a b : Bool) → (a || b) ≡ false → (a ≡ false) × (b ≡ false)
neither true b h = absurd (cc h)
neither false b h = (refl, h)

-- The body of a quoted argument.
parse_from-body :
    (value arg_value rest : Bytes)
    → parse_from (quoted 39) value (body arg_value ++ 39 ∷ rest)
      ≡ parse_from arg (value ++ arg_value) rest
unfolding next_step follow parse_from escape
parse_from-body value [] rest = plain (quoted 39) value 39 rest refl
parse_from-body value (c ∷ arg_value) rest = elim (Bool-cases (c == 39 || c == 92)) [
  | inl e ↦ rw e (
      parse_from-body (value ++ c ∷ []) arg_value rest
      ∙ ap (λ v. parse_from arg v rest) (append_assoc value (c ∷ []) arg_value))
  | inr e ↦
      (let (other, no_escape) = neither (c == 39) (c == 92) e in
        rw e (
          plain (quoted 39) value c (body arg_value ++ 39 ∷ rest) no_escape
          ∙ rw other (
              parse_from-body (value ++ c ∷ []) arg_value rest
              ∙ ap (λ v. parse_from arg v rest) (append_assoc value (c ∷ []) arg_value))))
]

parse_from-quote_arg :
    (arg_value rest : Bytes)
    → parse_from separator [] (quote_arg arg_value ++ rest) ≡ parse_from arg arg_value rest
unfolding next_step follow isspace
parse_from-quote_arg arg_value rest =
    ap (λ s. parse_from separator [] (39 ∷ s)) (append_assoc (body arg_value) (39 ∷ []) rest)
    ∙ plain separator [] 39 (body arg_value ++ 39 ∷ rest) refl
    ∙ parse_from-body [] arg_value rest

parse_from-quote_more :
    (value : Bytes) (args : List Bytes)
    → parse_from arg value (quote_more args) ≡ some (value ∷ args)
unfolding parse_from next_step follow isspace add_arg
parse_from-quote_more value [] = refl
parse_from-quote_more value (next ∷ args) =
    plain arg value 32 (quote_arg next ++ quote_more args) refl
    ∙ rw (parse_from-quote_arg next (quote_more args), parse_from-quote_more next args) refl

-- Every list of arguments, the empty ones included, is what a command line is parsed to: the line
-- that has each of them in single quotes, with backslashes before quotes and backslashes.
pub server_ssh_parse_command-quote_args :
    (args : List Bytes) → server_ssh_parse_command (quote_args args) ≡ some args
unfolding server_ssh_parse_command parse_from
server_ssh_parse_command-quote_args [] = refl
server_ssh_parse_command-quote_args (value ∷ args) =
    parse_from-quote_arg value (quote_more args) ∙ parse_from-quote_more value args
