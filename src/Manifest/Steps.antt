-- ===== src/Manifest/Steps.antt =====
-- Every way in which the program changes a manifest, as a sequence of calls. A call that fails
-- leaves the manifest as it was.
use okf_mcp_rs.Prelude.{Text, List, [], ◌∷◌, ok, err, ◌≡◌, refl, Result}
use okf_mcp_rs.Manifest.{
  Manifest, TombstoneError, empty, record_ingest, tombstone, purge, mark_compiled, record_raw_path,
}
use okf_mcp_rs.Prelude.Assoc.{lookup}
use okf_mcp_rs.Manifest.Invariant.{
  IsValid, record_ingest-IsValid, tombstone-IsValid, purge-IsValid, mark_compiled-IsValid,
  record_raw_path-IsValid,
}

pub data Op : Type 0 where
  ingest : Text → Text → Text → Text → Op
  delete : Text → Text → Text → Op
  purge_all : Text → Op
  compiled : Text → Op
  raw_path : Text → Text → Text → Op

abbrev pub or_same : Manifest → Result TombstoneError Manifest → Manifest
or_same m r = elim r [ ok m' ↦ m' | err _ ↦ m ]

unfoldable pub apply : Manifest → Op → Manifest
apply m (ingest uri hash raw_id at) = (record_ingest m uri hash raw_id at).0
apply m (delete uri reason at) = or_same m (tombstone m uri reason at)
apply m (purge_all uri) = (purge m uri).0
apply m (compiled uri) = mark_compiled m uri
apply m (raw_path uri raw_id path) = record_raw_path m uri raw_id path

unfoldable pub run : Manifest → List Op → Manifest
run m [] = m
run m (op ∷ ops) = run (apply m op) ops

or_same-IsValid :
    (m : Manifest) (r : Result TombstoneError Manifest)
    → IsValid m
    → ((m' : Manifest) → r ≡ ok m' → IsValid m')
    → IsValid (or_same m r)
or_same-IsValid m (ok m') h k = k m' refl
or_same-IsValid m (err x) h k = h

pub apply-IsValid : (m : Manifest) (op : Op) → IsValid m → IsValid (apply m op)
unfolding apply
apply-IsValid m (ingest uri hash raw_id at) h = record_ingest-IsValid m h uri hash raw_id at
apply-IsValid m (delete uri reason at) h =
    or_same-IsValid m (tombstone m uri reason at) h (tombstone-IsValid m h uri reason at)
apply-IsValid m (purge_all uri) h = purge-IsValid m h uri
apply-IsValid m (compiled uri) h = mark_compiled-IsValid m h uri
apply-IsValid m (raw_path uri raw_id path) h = record_raw_path-IsValid m h uri raw_id path

pub run-IsValid : (m : Manifest) (ops : List Op) → IsValid m → IsValid (run m ops)
unfolding run
run-IsValid m [] h = h
run-IsValid m (op ∷ ops) h = run-IsValid (apply m op) ops (apply-IsValid m op h)

empty-IsValid : IsValid empty
unfolding lookup
empty-IsValid = record { entries = λ uri e q. cc }

-- Whatever calls are made from the empty manifest, in every entry the recorded hash is the hash of
-- its one active version, which is its newest version, and with no hash recorded no version of the
-- entry is active.
pub reachable-IsValid : (ops : List Op) → IsValid (run empty ops)
reachable-IsValid ops = run-IsValid empty ops empty-IsValid
