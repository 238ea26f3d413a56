-- ===== src/Compiler/Prompts.antt =====
-- src/compiler/prompts.rs: the prompts for the language model.
use okf_mcp_rs.Prelude.{Text, ascii, Option, none, some, List, [], ◌∷◌, ◌++◌}
use okf_mcp_rs.Compiler.TokenEstimate.{RawBlob, WikiPageRef}

-- A text fenced as Markdown, and the empty line after it.
abbrev fenced : Text → Text
fenced content = ascii "```markdown\n" ++ (content ++ ascii "\n```\n\n")

abbrev superseded_part : Option RawBlob → Text
superseded_part none = []
superseded_part (some old) =
    ascii "## 2. SUPERSEDED PREVIOUS SOURCE (Diff Reference)\n"
    ++ (ascii "Old Raw ID: "
        ++ (old.id
            ++ (ascii "\nOld Content:\n"
                ++ (fenced old.content
                    ++ ascii
                        "INSTRUCTION: identify what changed or evolved between the superseded source and the active source, then update existing concept pages accordingly.\n\n"))))

abbrev page_part : WikiPageRef → Text
page_part page = ascii "Path: " ++ (page.path ++ (ascii "\n" ++ fenced page.content))

unfoldable pub pages_part : List WikiPageRef → Text
pages_part [] = []
pages_part (page ∷ pages) = page_part page ++ pages_part pages

abbrev related_part : List WikiPageRef → Text
related_part [] = []
related_part (page ∷ pages) =
    ascii "## 3. CURRENT EXISTING WIKI CONTEXT (To Update / Link Against)\n"
    ++ pages_part (page ∷ pages)

unfoldable pub build_compile_user_prompt : RawBlob → Option RawBlob → List WikiPageRef → Text
build_compile_user_prompt active superseded related =
    ascii "## 1. ACTIVE RAW SOURCE TO PROCESS\nRaw ID: "
    ++ (active.id
        ++ (ascii "\nContent:\n"
            ++ (fenced active.content
                ++ (superseded_part superseded
                    ++ (related_part related
                        ++ ascii
                            "Synthesize the active raw source into OKF v0.2 concept documents. Emit the JSON payload of operations.")))))

unfoldable pub sources_part : List RawBlob → Text
sources_part [] = []
sources_part (raw ∷ raws) =
    (ascii "Raw ID: " ++ (raw.id ++ (ascii "\nContent:\n" ++ fenced raw.content)))
    ++ sources_part raws

unfoldable pub build_link_fix_user_prompt : Text → List WikiPageRef → List RawBlob → Text
build_link_fix_user_prompt missing_slug referencing_pages cited_raw_sources =
    ascii "## 1. MISSING CONCEPT TO SYNTHESIZE\nThe wiki graph contains one or more `[["
    ++ (missing_slug
        ++ (ascii "]]` wikilinks, but neither `wiki/concepts/"
            ++ (missing_slug
                ++ (ascii ".md` nor `wiki/entities/"
                    ++ (missing_slug
                        ++ (ascii
                              ".md` exists. Create exactly that one file, in whichever of the two folders fits the subject (see the entities-vs-concepts rule above) (and, only if genuinely warranted by the source material, closely related files it should link to) — do not invent unrelated content.\n\n## 2. PAGES THAT LINK TO IT\n"
                            ++ (pages_part referencing_pages
                                ++ (ascii "## 3. RAW SOURCES CITED BY THOSE PAGES\n"
                                    ++ (sources_part cited_raw_sources
                                        ++ (ascii "Synthesize "
                                            ++ (missing_slug
                                                ++ ascii
                                                    ".md (in wiki/concepts/ or wiki/entities/, whichever fits) strictly from the raw sources above — the same provenance and atomicity rules as any other compile. Emit the JSON payload of operations.")))))))))))
