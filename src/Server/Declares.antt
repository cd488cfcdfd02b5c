-- ===== src/Server/Declares.antt =====
-- What a scenario file declares.
use auto_mock_tools.Prelude.{
  ℕ, ◌+◌, ok_injective, some_injective, subst, ◌≡◌, ◌≢◌, refl, sym, ap, ◌∙◌, List, [], ◌∷◌, some,
  Bytes,
}
use auto_mock_tools.Host.{Host, FileSystem}
use auto_mock_tools.Storage.Types.{MockScenario}
use auto_mock_tools.Scenario.Types.{Externals, ScenarioDefinition}
use auto_mock_tools.Scenario.Load.Added.{ReadAs}

module _ {F Op : Type 0} (host : Host F) (files : FileSystem) (externals : Externals F Op) where
  -- The file declares these scenarios: it is read and parsed, and each definition is read.
  pub record Declares (path : Bytes) (scs : List (MockScenario F Op)) : Type 0 where
    pub payload : Bytes
    pub definitions : List (ScenarioDefinition F)
    pub read : files.read_file path ≡ some payload
    pub parsed : externals.parse_scenarios payload ≡ some definitions
    pub some_definition : definitions ≢ []
    pub read_as : ReadAs host files externals (externals.dir path) 0 definitions scs

  ReadAs-unique :
      (base_dir : Bytes) (idx : ℕ) (ds : List (ScenarioDefinition F))
      (scs scs' : List (MockScenario F Op))
      → ReadAs host files externals base_dir idx ds scs
      → ReadAs host files externals base_dir idx ds scs'
      → scs ≡ scs'
  ReadAs-unique base_dir idx [] [] [] h h' = refl
  ReadAs-unique base_dir idx [] [] (sc' ∷ scs') h h' = elim h' [ ]
  ReadAs-unique base_dir idx [] (sc ∷ scs) scs' h h' = elim h [ ]
  ReadAs-unique base_dir idx (d ∷ ds) [] scs' h h' = elim h [ ]
  ReadAs-unique base_dir idx (d ∷ ds) (sc ∷ scs) [] h h' = elim h' [ ]
  ReadAs-unique base_dir idx (d ∷ ds) (sc ∷ scs) (sc' ∷ scs') h h' =
      let first : sc ≡ sc' = ok_injective (sym h.0 ∙ h'.0) in
      ap (λ x. x ∷ scs) first ∙ ap (◌∷◌ sc') (ReadAs-unique base_dir (idx + 1) ds scs scs' h.1 h'.1)

  -- A file declares one list of scenarios.
  pub Declares-unique :
      (path : Bytes) (scs scs' : List (MockScenario F Op))
      → Declares path scs
      → Declares path scs'
      → scs ≡ scs'
  Declares-unique path scs scs' h h' =
      let payloads : h.payload ≡ h'.payload = some_injective (sym h.read ∙ h'.read) in
      let definitions : h.definitions ≡ h'.definitions =
        some_injective (sym h.parsed ∙ ap externals.parse_scenarios payloads ∙ h'.parsed) in
      ReadAs-unique (externals.dir path) 0 h'.definitions scs scs'
        (subst (λ ds. ReadAs host files externals (externals.dir path) 0 ds scs) definitions
          h.read_as)
        h'.read_as
