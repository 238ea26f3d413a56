-- ===== src/Storage/WikiLog.antt =====
-- src/storage/wiki_log.rs: `append`, over the vault of src/ingest/Vault. `timestamp` is the time of
-- the call. Opening the log makes it an empty file where there is none.
pub mod AppendOnly
mod Tests
use okf_mcp_rs.Prelude.{
  Text, ascii, Bool, not, Option, none, some, List, [], ◌∷◌, ◌++◌, take, if◌then◌else◌, Result, ok,
  err,
}
use okf_mcp_rs.Prelude.Assoc.{lookup, insert}
use okf_mcp_rs.Core.VaultResolver.{PathBuf, sandbox_path}
use okf_mcp_rs.Storage.FileSystem.{Fault, works, fails, writes_part, next_fault, later}
use okf_mcp_rs.Ingest.Vault.{
  Vault, IngestError, interrupted, sandbox, Action, and_then, call, create_parent,
}
use okf_mcp_rs.Ingest.Blob.{is_some}

abbrev pub log_path : Text
log_path = ascii "wiki/log.md"

abbrev pub header : Text
header =
    ascii
      "# Compile Log\n\nAppend-only summary of each compile/fix/commit pass — see git history for the full detail behind each line.\n"

abbrev pub content_or_empty : Option Text → Text
content_or_empty none = []
content_or_empty (some content) = content

-- A write at the end of the open log.
abbrev pub add : Text → Vault → Vault
add text v = record v {
  files = insert log_path (content_or_empty (lookup log_path v.files) ++ text) v.files;
}

abbrev pub write_all_as : Fault → Text → Action Unit
write_all_as works text v = (ok tt, add text v)
write_all_as fails text v = (err interrupted, v)
write_all_as (writes_part n) text v = (err interrupted, add (take n text) v)

-- `file.write_all`
unfoldable pub write_all : Text → Action Unit
write_all text v = write_all_as (next_fault v.faults) text (record v { faults = later v.faults })

-- `OpenOptions::new().create(true).append(true).open`
unfoldable pub open_log : Action Unit
open_log = call (add [])

unfoldable pub write_header : Bool → Action Unit
write_header is_new v =
    if is_new then and_then (write_all header v) (λ _. write_all (ascii "\n")) else (ok tt, v)

unfoldable pub log_line : Text → Text → Text → Text → Text
log_line timestamp source status detail =
    ascii "- "
    ++ (timestamp
        ++ (ascii " ["
            ++ (source ++ (ascii "] " ++ (status ++ (ascii ": " ++ (detail ++ ascii "\n")))))))

unfoldable pub append : (Text → Option PathBuf) → Text → Text → Text → Text → Text → Action Unit
append canonicalize root timestamp source status detail v =
    elim (sandbox_path canonicalize root log_path) [
      | err e ↦ (err (sandbox e), v)
      | ok full_path ↦ and_then (create_parent v) (λ _ v.
          let is_new = not (is_some (lookup log_path v.files)) in
          and_then (open_log v) (λ _ v.
            and_then (write_header is_new v)
              (λ _. write_all (log_line timestamp source status detail))))
    ]
