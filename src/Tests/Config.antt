-- ===== src/Tests/Config.antt =====
-- The configuration of config/ at concrete inputs. A value is a text, and reading one is the identity.
use Prim.Native.String.{String}
use node_manager_core.Base.{◌≡◌, ◌↔◌, ◌⊎◌, inr, refl, true, false, some, [], ◌∷◌}
use text.Mathlib.Text.{◌==◌}
use node_manager_core.Config.{
  string, GoValues, Param, parsed, to_text, default_or_zero, change_network, deserialize,
}
use node_manager_core.Config.Parameters.{
  IsFaithful, free_text, deserialize-to_text, change_network_back,
}
use node_manager_core.Config.Sections.{
  Section, section, no_more, subconfig, ChangedSection, changed, none_changed, also_changed,
  find_subconfig, changed_parameters, changed_of, add_section, clone, get_changed_settings,
  get_affected_containers,
}
use node_manager_core.Config.Sections.Changes.{
  Affects, count_settings, get_affected_containers_iff, get_changed_settings-count,
}
use node_manager_core.Config.Sections.Cloning.{get_changed_settings-clone}

abbrev texts : GoValues
texts = record {
  Value = String;
  zero_value = λ k. "";
  of_text = λ s. s;
  has_kind = λ k v. true;
  equal = λ v w. v == w;
  sprint = λ v. v;
  parse = λ k s. some s;
  is_match = λ r s. some true;
}

texts-IsFaithful : IsFaithful texts
texts-IsFaithful = record { parse = λ k n m v t. refl; sprint_text = λ s. refl }

abbrev endpoint : Param texts
endpoint = record {
  id = "endpoint";
  name = "Endpoint";
  description = "";
  max_length = 20;
  regex = "";
  advanced = false;
  affects_containers = "bn" ∷ "vc" ∷ [];
  environment_variables = [];
  can_be_blank = false;
  overwrite_on_upgrade = false;
  descriptions_by_network = ("holesky", "The test endpoint") ∷ [];
  kind = string;
  defaults = ("mainnet", "main.io") ∷ ("all", "test.io") ∷ [];
  value = "main.io";
  options = [];
}

abbrev secret : Param texts
secret = record endpoint { regex = "^[a-z]*$" }

deserialize-to_text_example :
    deserialize texts endpoint "my.io" "mainnet" ≡ parsed (record endpoint { value = "my.io" })
unfolding to_text
deserialize-to_text_example =
    deserialize-to_text texts endpoint "my.io" "mainnet" texts-IsFaithful
      (free_text "my.io" refl refl refl refl (inr refl))

change_network_back_example :
    (change_network texts
      (change_network texts endpoint "mainnet" "holesky")
      "holesky"
      "mainnet").value
    ≡ "main.io"
unfolding default_or_zero
change_network_back_example = change_network_back texts endpoint "mainnet" "holesky" refl

abbrev settings : Section texts
settings =
    section "Metrics" (endpoint ∷ [])
      (subconfig "sub" (section "Sub" (secret ∷ []) no_more) no_more)

abbrev edited : Section texts
edited =
    section "Metrics" (record endpoint { value = "my.io" } ∷ [])
      (subconfig "sub" (section "Sub" (record secret { value = "abc" } ∷ []) no_more) no_more)

get_changed_settings-clone_example :
    (u : Section texts) × (clone texts "holesky" settings edited ≡ some u)
    × ((r : ChangedSection) × (get_changed_settings texts settings u ≡ some (r, 0)))
unfolding find_subconfig
get_changed_settings-clone_example =
    get_changed_settings-clone texts "holesky" settings edited (tt, tt, tt)
      (
        (refl, tt),
        (
          (section "Sub" (record secret { value = "abc" } ∷ []) no_more, refl, ((refl, tt), tt)),
          tt,
        ),
      )

abbrev changes : ChangedSection
changes =
    changed "Metrics"
      (record {
        name = "Endpoint";
        old_value = "main.io";
        new_value = "my.io";
        affected_containers = "bn" ∷ "vc" ∷ [];
      }
        ∷ [])
      (also_changed
        (changed "Sub"
          (record {
            name = "Endpoint";
            old_value = "main.io";
            new_value = "abc";
            affected_containers = "bn" ∷ "vc" ∷ [];
          }
            ∷ [])
          none_changed)
        none_changed)

get_changed_settings-count_example : count_settings changes ≡ 2
unfolding get_changed_settings changed_parameters find_subconfig changed_of add_section
get_changed_settings-count_example = get_changed_settings-count texts settings edited changes 2 refl

get_affected_containers_iff_example :
    (get_affected_containers changes (λ c. false) "vc" ≡ true)
    ↔ (Affects "vc" changes ⊎ (false ≡ true))
get_affected_containers_iff_example = get_affected_containers_iff changes (λ c. false) "vc"
