-- ===== src/Storage/WikiLog/AppendOnly.antt =====
-- What stands in the log stays.
use okf_mcp_rs.Prelude.{
  ◌≡◌, refl, sym, ◌∙◌, ap, inl, inr, Text, text_eq, text_eq_refl, Bool, true, false, Option, some,
  List, [], ◌++◌, append-nil, append_assoc, take, Result-cases,
}
use okf_mcp_rs.Prelude.Assoc.{lookup, lookup-insert}
use okf_mcp_rs.Core.VaultResolver.{PathBuf, sandbox_path}
use okf_mcp_rs.Storage.FileSystem.{Fault, works, fails, writes_part, next_fault, later}
use okf_mcp_rs.Ingest.Vault.{Vault, attempt, create_parent}
use okf_mcp_rs.Ingest.Pipeline.Files.{and_then-keeps}
use okf_mcp_rs.Storage.WikiLog.{
  log_path, header, add, write_all_as, write_all, open_log, write_header, append, content_or_empty,
}

-- The log starts with the old text, and every other file is as in the old vault.
pub record Extends (old : Text) (before : Vault) (v : Vault) : Type 0 where
  pub more : Text
  pub log : lookup log_path v.files ≡ some (old ++ more)
  pub others :
      (path : Text) → text_eq log_path path ≡ false → lookup path v.files ≡ lookup path before.files

module _ (old : Text) (before : Vault) where
  add-Extends : (text : Text) (v : Vault) → Extends old before v → Extends old before (add text v)
  add-Extends text v h =
      let content = content_or_empty (lookup log_path v.files) ++ text in
      let e : content ≡ old ++ (h.more ++ text) =
        ap (λ o. content_or_empty o ++ text) h.log ∙ append_assoc old h.more text in
      record {
        more = h.more ++ text;
        log =
            lookup-insert log_path log_path content v.files
            ∙ (rw (text_eq_refl log_path) refl ∙ ap some e);
        others =
            λ path n. lookup-insert log_path path content v.files ∙ (rw n refl ∙ h.others path n);
      }

  more_faults :
      (v : Vault) (faults : List Fault)
      → Extends old before v
      → Extends old before (record v { faults = faults })
  more_faults v faults h = record { more = h.more; log = h.log; others = h.others }

  write_all_as-Extends :
      (fault : Fault) (text : Text) (v : Vault)
      → Extends old before v
      → Extends old before (write_all_as fault text v).1
  write_all_as-Extends works text v h = add-Extends text v h
  write_all_as-Extends fails text v h = h
  write_all_as-Extends (writes_part n) text v h = add-Extends (take n text) v h

  write_all-Extends :
      (text : Text) (v : Vault) → Extends old before v → Extends old before (write_all text v).1
  unfolding write_all
  write_all-Extends text v h =
      write_all_as-Extends (next_fault v.faults) text (record v { faults = later v.faults })
        (more_faults v (later v.faults) h)

  attempt-Extends :
      (fault : Fault) (f : Vault → Vault) (v : Vault)
      → Extends old before v
      → Extends old before (f v)
      → Extends old before (attempt fault f v).1
  attempt-Extends works f v h g = g
  attempt-Extends fails f v h g = h
  attempt-Extends (writes_part n) f v h g = h

  open_log-Extends : (v : Vault) → Extends old before v → Extends old before (open_log v).1
  unfolding open_log
  open_log-Extends v h =
      let h' = more_faults v (later v.faults) h in
      attempt-Extends (next_fault v.faults) (add []) (record v { faults = later v.faults }) h'
        (add-Extends [] (record v { faults = later v.faults }) h')

  create_parent-Extends :
      (v : Vault) → Extends old before v → Extends old before (create_parent v).1
  unfolding create_parent
  create_parent-Extends v h =
      let h' = more_faults v (later v.faults) h in
      attempt-Extends (next_fault v.faults) (λ v. v) (record v { faults = later v.faults }) h' h'

  write_header-Extends :
      (is_new : Bool) (v : Vault)
      → Extends old before v
      → Extends old before (write_header is_new v).1
  unfolding write_header
  write_header-Extends false v h = h
  write_header-Extends true v h =
      and_then-keeps (Extends old before) (Extends old before) (write_all header v) _
        (write_all-Extends header v h) (λ v p. p) (λ _ v p. write_all-Extends _ v p)

  append-Extends :
      (canonicalize : Text → Option PathBuf) (root timestamp source status detail : Text)
      (v : Vault)
      → Extends old before v
      → Extends old before (append canonicalize root timestamp source status detail v).1
  unfolding append
  append-Extends canonicalize root timestamp source status detail v h =
      let P = Extends old before in
      elim (Result-cases (sandbox_path canonicalize root log_path)) [
        | inr (x, e) ↦ rw (append, e) h
        | inl (full_path, e) ↦
            rw (append, e)
              (and_then-keeps P P (create_parent v) _ (create_parent-Extends v h) (λ v p. p)
                (λ _ v p.
                  and_then-keeps P P (open_log v) _ (open_log-Extends v p) (λ v q. q)
                    (λ _ v q.
                      and_then-keeps P P (write_header _ v) _ (write_header-Extends _ v q)
                        (λ v r. r) (λ _ v r. write_all-Extends _ v r))))
      ]

-- `append` never takes from the log and touches no other file, whichever call fails and however much
-- of a write is done: the old text is the start of the new one.
pub append_only :
    (canonicalize : Text → Option PathBuf) (root timestamp source status detail old : Text)
    (v : Vault)
    → lookup log_path v.files ≡ some old
    → Extends old v (append canonicalize root timestamp source status detail v).1
append_only canonicalize root timestamp source status detail old v h =
    append-Extends old v canonicalize root timestamp source status detail v
      (record { more = []; log = h ∙ ap some (sym (append-nil old)); others = λ path n. refl })
