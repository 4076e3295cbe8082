-- ===== src/DocumentGen/VersionStore/Tests.antt =====
-- Two documents under one template.
use case_automation_mcp.Common.{true, ◌≡◌, refl, none, some, [], ◌∷◌, lookup, insert}
use case_automation_mcp.DocumentGen.VersionStore.{
  same_key, Ledger, World, Request, latest, next_version, lookup_idem, record_idem, put, store_new,
  store_document,
}
use case_automation_mcp.DocumentGen.VersionStore.Versions.{
  Descending, start, store, store_document-Descending,
}

abbrev a_world : World
a_world = record {
  uuid = λ n. "u";
  spell = λ n. "n";
  put = λ n d. some d;
  sha256 = λ s n. s;
  canonical = λ t v j. t;
}

abbrev a_request : Request
a_request = record {
  key = record { matter_id = "m"; template_name = "t"; doc_key = "k" };
  checksum = "c1";
  privileged = true;
  classification = none;
  idem_key = "i1";
}

abbrev idle : Ledger
idle = record { versions = []; idem = []; idem_checksums = []; puts = [] }

abbrev after_two : Ledger
after_two =
    (store_document a_world (record a_request { idem_key = "i2" })
      (store_document a_world a_request idle).1).1

-- other content under a key that is there is not refused: the first document is returned
not_refused :
    (store_document a_world
      (record a_request { checksum = "c2" })
      (store_document a_world a_request idle).1).0
    ≡ (store_document a_world a_request idle).0
unfolding store_document store_new next_version put record_idem lookup_idem latest same_key lookup
    insert
not_refused = refl

two_versions : after_two.puts ≡ (a_request.key, 2) ∷ (a_request.key, 1) ∷ []
unfolding store_document store_new next_version put record_idem lookup_idem latest same_key lookup
    insert
two_versions = refl

store_document-Descending_example : Descending after_two.puts
store_document-Descending_example =
    store_document-Descending idle after_two refl
      (store a_world (record a_request { idem_key = "i2" }) (store a_world a_request start))
