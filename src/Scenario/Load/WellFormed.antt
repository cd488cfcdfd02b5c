-- ===== src/Scenario/Load/WellFormed.antt =====
-- Every response that a scenario configuration declares is well formed.
use auto_mock_tools.Prelude.{
  ℕ, ◌+◌, ◌≡◌, ◌≢◌, refl, subst, List, [], ◌∷◌, arith, Option, none, some, Bytes, Error, Result, ok,
  err, missing_name, missing_path, missing_file, >>=-eq-ok, ok_injective, All,
}
use auto_mock_tools.Host.{Host, FileSystem}
use auto_mock_tools.Storage.Types.{MockResponse, MockScenario}
use auto_mock_tools.Storage.Load.WellFormed.{load_response_from_file-IsWellFormed}
use auto_mock_tools.Loader.{load_response_from_file}
use auto_mock_tools.Loader.WellFormed.{IsWellFormed}
use auto_mock_tools.Scenario.Types.{ScenarioDefinition, Externals}
use auto_mock_tools.Scenario.Load.{
  required, in_scenario, override_delay, scenario_method, scenario_filter, resolve, scenario_of,
}
use auto_mock_tools.Scenario.Load.Added.{ReadAs}

required-ne_nil : (e : Error) (s t : Bytes) → required e s ≡ ok t → t ≢ []
required-ne_nil e [] t h h' = cc
required-ne_nil e (c ∷ s) t h h' = let k : c ∷ s ≡ t = ok_injective h in cc

in_scenario-eq-ok {ℓ} :
    {A : Type ℓ} (name : Bytes) (o : Result A) (a : A) → in_scenario name o ≡ ok a → o ≡ ok a
in_scenario-eq-ok name (ok b) a h = h
in_scenario-eq-ok name (err e) a h = cc

module _ {F : Type 0} (host : Host F) where
  scenario_method-ne_nil : (defined recorded : Bytes) → scenario_method host defined recorded ≢ []
  unfolding scenario_method
  scenario_method-ne_nil defined recorded e = ground arith

  override_delay-IsWellFormed :
      (o : Option F) (r : MockResponse F) → IsWellFormed r → IsWellFormed (override_delay host o r)
  unfolding override_delay
  override_delay-IsWellFormed none r h = h
  override_delay-IsWellFormed (some d) r h = record {
    path_ne_nil = h.path_ne_nil;
    method_ne_nil = h.method_ne_nil;
    method_bytes = h.method_bytes;
    keyed = h.keyed;
    covered = h.covered;
    is_sse = h.is_sse;
    events_of_sse = λ no_sse. rw no_sse (h.events_of_sse no_sse);
  }

module _ {F Op : Type 0} (host : Host F) (files : FileSystem) (externals : Externals F Op) where
  -- the response of the scenario is well formed, and answers on the scenario's path and method
  pub record IsPlaced (sc : MockScenario F Op) : Type 0 where
    pub well_formed : IsWellFormed sc.response
    pub path : sc.response.path ≡ sc.path
    pub method : sc.response.method ≡ sc.method
    pub mock_id : sc.response.mock_id ≡ sc.name
    pub name_ne_nil : sc.name ≢ []

  scenario_of-IsPlaced :
      (base_dir : Bytes) (idx : ℕ) (d : ScenarioDefinition F) (sc : MockScenario F Op)
      → scenario_of host files externals base_dir idx d ≡ ok sc
      → IsPlaced sc
  unfolding scenario_of
  scenario_of-IsPlaced base_dir idx d sc h =
      let (name, n, h₁) =
        >>=-eq-ok (required (missing_name (idx + 1)) (host.trim_space d.name)) _ h in
      let (path, p, h₂) = >>=-eq-ok (required (missing_path name) (host.trim_space d.path)) _ h₁ in
      let (file, _, h₃) =
        >>=-eq-ok (required (missing_file name) (host.trim_space d.response_file)) _ h₂ in
      let (loaded, l, h₄) =
        >>=-eq-ok
          (in_scenario name
            (load_response_from_file host files (resolve host files externals base_dir file) name))
          _ h₃ in
      let (operator, _, h₅) = >>=-eq-ok (scenario_filter externals name d.filter_body) _ h₄ in
      let kept = override_delay-IsWellFormed host d.response_delay loaded (
        load_response_from_file-IsWellFormed host files _ name loaded
          (in_scenario-eq-ok name _ loaded l)) in
      let ne = required-ne_nil (missing_path name) (host.trim_space d.path) path p in
      subst IsPlaced (ok_injective h₅) (record {
        well_formed = record {
          path_ne_nil = ne;
          method_ne_nil = scenario_method-ne_nil host d.method _;
          method_bytes = refl;
          keyed = kept.keyed;
          covered = kept.covered;
          is_sse = kept.is_sse;
          events_of_sse = kept.events_of_sse;
        };
        path = refl;
        method = refl;
        mock_id = refl;
        name_ne_nil = required-ne_nil (missing_name (idx + 1)) (host.trim_space d.name) name n;
      })

  -- Every scenario that LoadScenarioConfig reads has a name, and a well-formed response that
  -- carries the scenario's path and method, and its name as mock id.
  pub ReadAs-IsPlaced :
      (base_dir : Bytes) (idx : ℕ) (ds : List (ScenarioDefinition F))
      (scs : List (MockScenario F Op))
      → ReadAs host files externals base_dir idx ds scs
      → All IsPlaced scs
  ReadAs-IsPlaced base_dir idx [] [] h = tt
  ReadAs-IsPlaced base_dir idx [] (sc ∷ scs) h = elim h [ ]
  ReadAs-IsPlaced base_dir idx (d ∷ ds) [] h = elim h [ ]
  ReadAs-IsPlaced base_dir idx (d ∷ ds) (sc ∷ scs) h =
      (scenario_of-IsPlaced base_dir idx d sc h.0, ReadAs-IsPlaced base_dir (idx + 1) ds scs h.1)
