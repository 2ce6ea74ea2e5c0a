-- ===== src/Model/FlagNames.antt =====
-- The groups of flags of exec/model/model.go, by their names, and the names that are kept from the
-- commands in the containers. The name of the framework's flag that forces a deployment is a parameter.
use chaosblade_operator.Base.{String, ◌==◌, ◌≡◌, refl, Bool, true, false, ◌||◌, List, [], ◌∷◌}
use chaosblade_operator.Model.Flags.{
  resource_count_flag, resource_percent_flag, resource_names_flag, resource_namespace_flag,
  resource_labels_flag, resource_group_key_flag,
}

abbrev names_have : List String → String → Bool
names_have [] name = false
names_have (n ∷ ns) name = n == name || names_have ns name

unfoldable pub get_resource_coverage_flags : List String
get_resource_coverage_flags = resource_count_flag ∷ resource_percent_flag ∷ []

unfoldable pub get_resource_common_flags : List String
get_resource_common_flags =
    resource_names_flag ∷ resource_namespace_flag ∷ resource_labels_flag ∷ resource_group_key_flag
    ∷ []

unfoldable pub get_container_flags : List String
get_container_flags = "container-ids" ∷ "container-names" ∷ "container-index" ∷ []

unfoldable pub get_network_flags : List String
get_network_flags = "is-docker-network" ∷ "use-sidecar-container-network" ∷ []

module _ (override_flag : String) where
  unfoldable pub get_chaos_blade_flags : List String
  get_chaos_blade_flags =
      "chaosblade-path" ∷ override_flag ∷ "chaosblade-deploy-mode" ∷ "chaosblade-download-url" ∷ []

  unfoldable pub get_resource_flag_names : List String
  get_resource_flag_names =
      resource_count_flag ∷ resource_percent_flag ∷ resource_names_flag ∷ resource_namespace_flag
      ∷ resource_labels_flag ∷ "container-ids" ∷ "container-names" ∷ "container-index"
      ∷ "chaosblade-path" ∷ override_flag ∷ "chaosblade-deploy-mode" ∷ "chaosblade-download-url"
      ∷ "is-docker-network" ∷ "use-sidecar-container-network" ∷ []

  -- Of the common flags the group key is not among the names that are kept from the commands (unless
  -- the flag that forces a deployment has that name), and the others are.
  pub group_key_passed_on :
      (names_have get_resource_flag_names resource_group_key_flag
        ≡ (override_flag == resource_group_key_flag || false))
      × (names_have get_resource_flag_names resource_names_flag ≡ true)
      × (names_have get_resource_flag_names resource_namespace_flag ≡ true)
      × (names_have get_resource_flag_names resource_labels_flag ≡ true)
  unfolding get_resource_flag_names
  group_key_passed_on = (refl, refl, refl, refl)
