-- ===== src/Server/Commands/First.antt =====
-- Which rule a request gets.
use remctl.Base.{
  ◌≡◌, refl, ap, true, false, Bool-cases, inl, inr, Option, none, some, List, [], ◌∷◌, ◌++◌, All,
  Bytes,
}
use remctl.Server.Rule.{Rule}
use remctl.Server.Commands.Match.{line_matches, find_config_line}

module _ (command subcommand : Option Bytes) where
  abbrev pub Skips : Rule → Type 0
  Skips rule = line_matches rule command subcommand ≡ false

  -- The first rule that matches, behind rules that do not; or none matches.
  abbrev pub FoundFirst : List Rule → Option Rule → Type 0
  FoundFirst rules none = All Skips rules
  FoundFirst rules (some rule) =
      (line_matches rule command subcommand ≡ true)
      × ((before : List Rule) × (after : List Rule) × (rules ≡ before ++ rule ∷ after)
          × All Skips before)

  FoundFirst-cons :
      (rule : Rule) (rules : List Rule) (found : Option Rule)
      → Skips rule
      → FoundFirst rules found
      → FoundFirst (rule ∷ rules) found
  FoundFirst-cons rule rules none skips h = (skips, h)
  FoundFirst-cons rule rules (some r) skips (hit, (before, after, eq, all)) =
      (hit, (rule ∷ before, after, ap (λ rs. rule ∷ rs) eq, (skips, all)))

  -- The rule that a request gets is the first in the configuration that matches, and it gets none
  -- exactly if none matches.
  pub find_config_line-FoundFirst :
      (rules : List Rule) → FoundFirst rules (find_config_line rules command subcommand)
  unfolding find_config_line
  find_config_line-FoundFirst [] = tt
  find_config_line-FoundFirst (rule ∷ rules) =
      elim (Bool-cases (line_matches rule command subcommand)) [
        | inl hit ↦ rw hit (hit, ([], rules, refl, tt))
        | inr skips ↦ rw skips (
            FoundFirst-cons rule rules (find_config_line rules command subcommand) skips
              (find_config_line-FoundFirst rules))
      ]
