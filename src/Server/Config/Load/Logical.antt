-- ===== src/Server/Config/Load/Logical.antt =====
-- A configuration file is read line by line, whatever its lines are cut into.
use remctl.Base.{ℕ, zero, suc, ◌<◌, ◌≡◌, refl, inl, inr, none, some, length, Bytes, arith}
use remctl.Server.Config.File.{Reader}
use remctl.Server.Config.File.Lines.{Lines, no_line, broken_off, numbered, physical, logical}
use remctl.Server.Config.File.Gather.{NoNul, IsReady}
use remctl.Server.Config.File.Rounds.{next_line-Follows}
use remctl.Server.Config.Load.{
  Config, Load, loaded, failed, spent, Files, ◌then_load◌, load_line, load_round, load_rounds,
  start_reading, load_opened, read_conf_file,
}

module _ (files : Files) (function : Bytes → Config → Load) (name : Bytes) where
  -- The lines are read one by one, with `function` for each included file.
  unfoldable pub load_lines : Lines → Config → Load
  load_lines no_line c = loaded c
  load_lines broken_off c = failed
  load_lines (numbered lineno string lines) c =
      load_line files function name lineno string c then_load load_lines lines

  then_load-same :
      (load : Load) (next next' : Config → Load)
      → ((c : Config) → next c ≡ next' c)
      → (load then_load next) ≡ (load then_load next')
  then_load-same (loaded c) next next' h = h c
  then_load-same failed next next' h = refl
  then_load-same spent next next' h = refl

  load_rounds-load_lines :
      (fuel : ℕ) (r : Reader) (c : Config)
      → length r.unread < fuel
      → IsReady r
      → load_rounds files function name fuel r c
        ≡ load_lines (logical (physical r.unread) none r.lineno) c
  unfolding load_rounds load_round load_lines
  load_rounds-load_lines zero r c enough ready = absurd (omega (arith, enough))
  load_rounds-load_lines (suc fuel) r c enough ready = elim (next_line-Follows r ready) [
    | inl (e, h) ↦ rw (e, h) refl
    | inr (inl (e, h)) ↦ rw (e, h) refl
    | inr (inr (inl (r', e, h, ready', less))) ↦
        rw (e, h) (load_rounds-load_lines fuel r' c (omega (arith, less, enough)) ready')
    | inr (inr (inr (r', e, h, ready', less))) ↦
        rw (e, h)
          (then_load-same (load_line files function name r'.lineno r'.buffer c) _ _
            (λ c'. load_rounds-load_lines fuel r' c' (omega (arith, less, enough)) ready'))
  ]

  load_opened-load_lines :
      (content : Bytes) (c : Config)
      → NoNul content
      → load_opened files function name (some content) c
        ≡ load_lines (logical (physical content) none 0) c
  unfolding load_opened
  load_opened-load_lines content c clean =
      load_rounds-load_lines (suc (length content)) (start_reading files content) c (omega arith)
        (record { big = omega arith; clean = clean })

-- A configuration file without a nul octet is read as the sequence of its logical lines, however
-- long they are: the buffer that grows and the fuel make no difference.
pub read_conf_file-load_lines :
    (files : Files) (fuel : ℕ) (name content : Bytes) (c : Config)
    → files.content name ≡ some content
    → NoNul content
    → read_conf_file files (suc fuel) name c
      ≡ load_lines files (read_conf_file files fuel) name (logical (physical content) none 0) c
unfolding read_conf_file
read_conf_file-load_lines files fuel name content c e clean =
    rw e (load_opened-load_lines files (read_conf_file files fuel) name content c clean)
