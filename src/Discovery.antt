-- ===== src/Discovery.antt =====
-- The choice of the service discovery, pkg/common/discoveryregister/discoveryregister.go. `R` is
-- what the library's registries are; the two functions that make one are parameters.
use openim_project_template.Base.{String, ◌==◌, string_eq, if◌then◌else◌, [], ◌∷◌, Res, err}
use openim_project_template.Errors.{new_kv, wrap}
use openim_project_template.Config.Settings.{Discovery, Etcd}

module _ {R : Type 0} (etcd : Etcd → Res R) (kubernetes : String → Res R) where
  -- `NewDiscoveryRegister`
  unfoldable pub new_discovery_register : Discovery → Res R
  new_discovery_register d =
      if d.enable == "etcd"
      then etcd d.etcd
      else if d.enable == "kubernetes"
      then kubernetes "default"
      else err (wrap (new_kv "unsupported discovery type" (("type", d.enable) ∷ [])))
