-- ===== src/Storage/WikiLog/Tests.antt =====
-- Lines of a log.
use okf_mcp_rs.Prelude.{◌≡◌, refl, Text, ascii, text_eq, Option, some, [], ◌∷◌}
use okf_mcp_rs.Prelude.Assoc.{lookup}
use okf_mcp_rs.Core.VaultResolver.{PathBuf}
use okf_mcp_rs.Storage.FileSystem.{works, writes_part}
use okf_mcp_rs.Manifest.{empty}
use okf_mcp_rs.Ingest.Vault.{Vault}
use okf_mcp_rs.Storage.WikiLog.{log_path, log_line, append}
use okf_mcp_rs.Storage.WikiLog.AppendOnly.{Extends, append_only}

line :
    log_line (ascii "now") (ascii "compile") (ascii "ok") (ascii "1 source")
    ≡ ascii "- now [compile] ok: 1 source\n"
unfolding log_line
line = refl

abbrev canonicalize : Text → Option PathBuf
canonicalize p = some (ascii "v" ∷ [])

-- The write of the line stops after three characters.
abbrev vault : Vault
vault = record {
  manifest = empty;
  files = (ascii "wiki/log.md", ascii "old\n") ∷ [];
  faults = works ∷ works ∷ writes_part 3 ∷ [];
}

old_log : lookup log_path vault.files ≡ some (ascii "old\n")
unfolding lookup text_eq
old_log = refl

append_only_example :
    Extends
      (ascii "old\n")
      vault
      (append canonicalize (ascii "/v") (ascii "t") (ascii "s") (ascii "ok") (ascii "d") vault).1
append_only_example =
    append_only canonicalize (ascii "/v") (ascii "t") (ascii "s") (ascii "ok") (ascii "d")
      (ascii "old\n") vault old_log
