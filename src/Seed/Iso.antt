-- ===== src/Seed/Iso.antt =====
-- internal/seediso/seediso.go and internal/isoutil/remaster.go: what is put on the installer ISO, and
-- the arguments of xorriso that put it there.
use ubuntu_vm_template_build.Base.{
  Bool, List, [], ◌∷◌, ◌++◌, if◌then◌else◌, is_empty, codes,
}
use ubuntu_vm_template_build.Text.{Text, trim_space}
use ubuntu_vm_template_build.Text.Path.{join_path}
use ubuntu_vm_template_build.Offline.Install.{
  InstallConfig, enabled, iso_repo_path, iso_install_config_path,
}

pub record FileMapping : Type 0 where
  pub local_path : Text
  pub iso_path : Text

abbrev pub support_scripts : List Text
support_scripts =
    codes "install-offline-packages.sh"
    ∷ codes "cleanup-installed-grub.sh"
    ∷ codes "prepare-cloud-init-template.sh"
    ∷ []

abbrev pub support_dir : Text → Text
support_dir work_dir = join_path (work_dir ∷ codes "builder-support" ∷ [])

abbrev pub scripts_dir : Text → Text
scripts_dir work_dir = join_path (support_dir work_dir ∷ codes "scripts" ∷ [])

abbrev pub install_config_dir : Text → Text
install_config_dir work_dir = join_path (support_dir work_dir ∷ codes "offline-apt-install" ∷ [])

-- The mappings that `SupportFileMappings` returns.
unfoldable pub support_file_mappings : Text → InstallConfig → List FileMapping
support_file_mappings work_dir install =
    record {
      local_path = scripts_dir work_dir;
      iso_path = codes "/ubuntu-vm-template-builder/scripts";
    }
    ∷ (if enabled install
      then record { local_path = install_config_dir work_dir; iso_path = iso_install_config_path }
        ∷ []
      else [])

abbrev pub repo_mappings : Text → List FileMapping
repo_mappings repo_path =
    if is_empty (trim_space repo_path)
    then []
    else record { local_path = repo_path; iso_path = iso_repo_path } ∷ []

abbrev pub map_args : List FileMapping → List Text
map_args [] = []
map_args (mapping ∷ mappings) =
    codes "-map" ∷ mapping.local_path ∷ mapping.iso_path ∷ map_args mappings

-- The arguments of `RemasterISO`
unfoldable pub remaster_args : Text → Text → List FileMapping → List Text
remaster_args source_iso output_iso mappings =
    codes "-indev"
    ∷ source_iso
    ∷ codes "-outdev"
    ∷ output_iso
    ∷ map_args mappings
    ++ (codes "-boot_image" ∷ codes "any" ∷ codes "replay" ∷ [])
