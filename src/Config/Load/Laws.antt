-- ===== src/Config/Load/Laws.antt =====
-- Where a configuration comes from.
use openim_project_template.Base.{
  String, ◌≡◌, ◌↔◌, ◌==◌, string_eq, if◌then◌else◌, Option, none, some, ok, arith,
}
use openim_project_template.Config.Load.{
  Viper, load, mount_config_file_path, deployment_type, kubernetes,
}

module _ {A : Type 0} (v : Viper A) (join : String → String → String)
    (getenv : String → String) where
  -- The file that is read and the prefix under which it is decoded, if there is one.
  abbrev pub source : String → String → String → Option (String × Option String)
  source directory file_name prefix =
      if getenv deployment_type == kubernetes
      then (if getenv mount_config_file_path == ""
          then none
          else some (join (getenv mount_config_file_path) file_name, none))
      else some (join directory file_name, some prefix)

  -- A configuration is loaded exactly if there is a file to read, it is read and decodes to that
  -- configuration: in Kubernetes the file under CONFIG_PATH without the environment, elsewhere
  -- the file in the directory under the prefix.
  pub load-ok_iff :
      (directory file_name prefix : String) (a : A)
      → (load v join getenv directory file_name prefix ≡ ok a) ↔ (
          (path : String) × (p : Option String) × (source directory file_name prefix
            ≡ some (path, p))
          × (v.read path ≡ none)
          × (v.unmarshal path p ≡ ok a))
  unfolding load
  load-ok_iff directory file_name prefix a = (
    λ h. elim (string_eq.dec (getenv deployment_type) kubernetes) [
      | yes k8s ↦ elim (string_eq.dec (getenv mount_config_file_path) "") [
        | yes unset ↦ absurd (ground arith)
        | no set ↦ (
          join (getenv mount_config_file_path) file_name,
          none,
          ground arith,
          ground arith,
          ground arith,
        )
      ]
      | no local ↦ (join directory file_name, some prefix, ground arith, ground arith, ground arith)
    ],
    λ (path, p, from, is_read, decoded). ground arith,
  )

  -- In Kubernetes neither the directory nor the prefix has a part in what is loaded.
  load-kubernetes :
      (directory directory' file_name prefix prefix' : String)
      → getenv deployment_type ≡ kubernetes
      → load v join getenv directory file_name prefix
        ≡ load v join getenv directory' file_name prefix'
  unfolding load
  load-kubernetes directory directory' file_name prefix prefix' h = ground arith
