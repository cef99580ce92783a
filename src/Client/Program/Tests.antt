-- ===== src/Client/Program/Tests.antt =====
-- The program remctl at small inputs.
use remctl.Base.{ℕ, ◌≡◌, refl, some, List, [], ◌∷◌, Bytes, codes, arith}
use remctl.Client.Session.{World}
use remctl.Client.Program.{Settings, Run, default_settings, goes_on, parse_options, main}
use remctl.Client.Program.Ends.{main_returns}
use remctl.Client.Program.Options.{InRange, parse_options-InRange}

abbrev no_world : World
no_world = record {
  attempts = [];
  tried = [];
  handshakes = [];
  channel = record { sent = []; outcomes = []; incoming = [] };
  flags = [];
  closed = [];
}

abbrev test_options : List (ℕ × Bytes)
test_options = (b'p', codes "4373") ∷ (b's', codes "host/a") ∷ []

main_returns_example :
    (run : Run) × (main (λ host. some host) no_world test_options (codes "a" ∷ codes "b" ∷ [])
      ≡ some run)
main_returns_example =
    main_returns (λ host. some host) no_world test_options (codes "a" ∷ codes "b" ∷ [])

abbrev test_settings : Settings
test_settings = record default_settings { port = 4373; service_name = some (codes "host/a") }

test_options_parsed : parse_options default_settings test_options ≡ goes_on test_settings
unfolding parse_options
test_options_parsed = refl

parse_options-InRange_example : InRange test_settings
parse_options-InRange_example =
    parse_options-InRange default_settings test_options test_settings (omega arith, (0, refl))
      test_options_parsed
