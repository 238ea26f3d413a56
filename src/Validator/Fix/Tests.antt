-- ===== src/Validator/Fix/Tests.antt =====
-- Repairs of small pages.
use okf_mcp_rs.Prelude.{
  ◌≡◌, refl, Text, ascii, Option, none, some, [], split_once, if◌then◌else◌, any, is_prefix,
}
use okf_mcp_rs.Prelude.Pieces.{lines}
use okf_mcp_rs.Validator.Frontmatter.{WikiFrontmatter, parse_wiki_page}
use okf_mcp_rs.Validator.Fix.{fix_yaml, fix_page}
use okf_mcp_rs.Validator.Fix.Repairs.{IsRepair, fix_page-IsRepair}

typo : fix_yaml (ascii "type: c\ntid: 7") ≡ some (ascii "type: c\nid: 7")
unfolding fix_yaml lines split_once
typo = refl

-- The text of the line is looked for in all of the frontmatter, so another field is renamed here.
wrong_field : fix_yaml (ascii "xtid: 7\ntid: 7") ≡ some (ascii "xid: 7\ntid: 7")
unfolding fix_yaml lines split_once
wrong_field = refl

abbrev some_frontmatter : WikiFrontmatter
some_frontmatter = record {
  okf_version = none;
  type = ascii "c";
  id = none;
  title = [];
  description = none;
  sources = [];
  tags = [];
  timestamp = none;
  status = none;
  stale_after = none;
  generated = none;
}

-- A reader of YAML that wants a field `id`.
abbrev from_yaml : Text → Option WikiFrontmatter
from_yaml yaml = if any (is_prefix (ascii "id:")) (lines yaml) then some some_frontmatter else none

typo_fixed :
    fix_page from_yaml (ascii "---\ntid: 7\n---\ntid: b") ≡ some (ascii "---\nid: 7\n---\ntid: b")
unfolding fix_page fix_yaml parse_wiki_page lines split_once
typo_fixed = refl

fix_page-IsRepair_example :
    IsRepair from_yaml (ascii "---\ntid: 7\n---\ntid: b") (ascii "---\nid: 7\n---\ntid: b")
fix_page-IsRepair_example =
    fix_page-IsRepair from_yaml (ascii "---\ntid: 7\n---\ntid: b") (ascii "---\nid: 7\n---\ntid: b")
      typo_fixed
