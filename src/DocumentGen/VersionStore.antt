-- ===== src/DocumentGen/VersionStore.antt =====
-- src/cam/core/workflows/document_gen/version_store.py. The docstore, SHA-256, JSON and the supply of
-- uuids are parameters. Times, the constant fields of a document and logs are left out.
use Prim.Native.String
use case_automation_mcp.Common.{
  ℕ, ◌+◌, String, Bool, true, false, not, ◌&&◌, Option, none, some, List, [], ◌∷◌, Dict, lookup,
  insert, length, ◌==◌, Outcome, ok, err, Exec, pure, raise, ◌>>=◌, ◌>>◌, writes, if◌then◌else◌,
}
use case_automation_mcp.Json.{Json}
pub mod Versions
mod Tests

pub record Document : Type 0 where
  pub id : String
  pub matter_id : String
  pub name : String
  pub uri : String
  pub classification : Option String
  pub version : ℕ
  pub privileged : Bool
  pub checksum : String

pub record Key : Type 0 where
  pub matter_id : String
  pub template_name : String
  pub doc_key : String

pub same_key : Key → Key → Bool
same_key a b =
    (a.matter_id == b.matter_id) && (a.template_name == b.template_name) && (a.doc_key == b.doc_key)

-- `InMemoryVersionLedger`, and the calls of `docstore.put`, newest first
pub record Ledger : Type 0 where
  pub versions : List (Key × ℕ)
  pub idem : Dict Document
  pub idem_checksums : Dict String
  pub puts : List (Key × ℕ)

-- `VersionCollisionError`, and what the docstore raises
pub data StoreError : Type 0 where
  version_collision : StoreError
  put_failed : StoreError

abbrev pub Storing : Type 0 → Type 0
Storing A = Exec StoreError Ledger A

-- the docstore answers its nth call with the document that it stored, or raises
pub record World : Type 0 where
  pub uuid : ℕ → String
  pub spell : ℕ → String
  pub put : ℕ → Document → Option Document
  pub sha256 : String → ℕ → String
  pub canonical : String → ℕ → Json → String

-- `_versions.get(key, 0)`
pub latest : Key → List (Key × ℕ) → ℕ
latest k [] = 0
latest k ((j, n) ∷ l) = let rest = latest k l in if same_key j k then n else rest

-- `next_version`; the newest entry for a key stands first
pub next_version : Key → Storing ℕ
next_version k g = (
  ok (latest k g.versions + 1),
  record g { versions = (k, latest k g.versions + 1) ∷ g.versions },
)

pub lookup_idem : String → Ledger → Option Document
lookup_idem idem_key g = lookup idem_key g.idem

-- whether another checksum is recorded under the key
pub collides : String → Option String → Bool
collides checksum none = false
collides checksum (some c) = not (c == checksum)

-- `record_idem`
pub record_idem : String → Document → String → Storing Unit
unfolding collides
record_idem idem_key doc checksum g =
    if collides checksum (lookup idem_key g.idem_checksums) then (err version_collision, g) else (
      ok tt,
      record g {
        idem = insert idem_key doc g.idem;
        idem_checksums = insert idem_key checksum g.idem_checksums;
      },
    )

pub derive_idem_key : World → String → ℕ → Json → String
derive_idem_key w template_name template_version context =
    w.sha256 (w.canonical template_name template_version context) 24

pub record Request : Type 0 where
  pub key : Key
  pub checksum : String
  pub privileged : Bool
  pub classification : Option String
  pub idem_key : String

abbrev text : String → String → String
text = String.◌++◌

new_document : World → Request → ℕ → ℕ → Document
new_document w q n version = record {
  id = w.uuid n;
  matter_id = q.key.matter_id;
  name = text q.key.template_name (text "_v" (text (w.spell version) ".docx"));
  uri = "";
  classification = q.classification;
  version = version;
  privileged = q.privileged;
  checksum = q.checksum;
}

abbrev answered : Option Document → Outcome StoreError Document
answered none = err put_failed
answered (some d) = ok d

-- `docstore.put`
pub put : World → Request → ℕ → Storing Document
unfolding new_document
put w q version g = (
  answered (w.put (length g.puts) (new_document w q (length g.puts) version)),
  record g { puts = (q.key, version) ∷ g.puts },
)

pub store_new : World → Request → Storing Document
unfolding put
store_new w q = do
  version ← next_version q.key
  stored ← put w q version
  record_idem q.idem_key stored q.checksum
  pure stored

abbrev pub unless : Option Document → Storing Document → Storing Document
unless none m = m
unless (some d) m = pure d

pub store_document : World → Request → Storing Document
unfolding store_new
store_document w q g = unless (lookup_idem q.idem_key g) (store_new w q) g
