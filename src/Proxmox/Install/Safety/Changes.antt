-- ===== src/Proxmox/Install/Safety/Changes.antt =====
-- internal/backend/proxmox/proxmox.go: the steps from the installer's run to the template are for the created VM.
use ubuntu_vm_template_build.Base.{
  ℕ, zero, suc, ℤ, ◌≡◌, false, refl, subst, OneOf, not, is_empty, codes,
}
use ubuntu_vm_template_build.Text.{Text, equal}
use ubuntu_vm_template_build.Text.Trim.{equal_iff}
use ubuntu_vm_template_build.Proxmox.Values.{Values}
use ubuntu_vm_template_build.Proxmox.Options.Build.{Built, built, refused}
use ubuntu_vm_template_build.Proxmox.CloudInit.Build.{
  CloudInitBuilt, cloud_init_built, cloud_init_refused,
}
use ubuntu_vm_template_build.Proxmox.Config.{Config, ConnectionConfig, is_vm_output}
use ubuntu_vm_template_build.Proxmox.Vm.{VmValues, vm_values, vm_refused, build_finalize_vm_values}
use ubuntu_vm_template_build.Proxmox.Client.{
  Client, History, replied, started_vm, got_vm_status, updated_config, made_template, waited,
}
use ubuntu_vm_template_build.Proxmox.Install.{
  Progress, Step, ConfigChange, ◌>>=◌, finalization, cloud_init_options, vm_options,
}
use ubuntu_vm_template_build.Proxmox.Install.Machine.{
  values_of, wait_for_power_off, power_on_and_wait_for_installer, change_config,
  finalize_post_install_config, change_unless_empty, with_cloud_init, apply_cloud_init_options,
  with_options, apply_vm_options, maybe_convert_to_template,
}
use ubuntu_vm_template_build.Proxmox.Install.Triple.{
  Assertion, Triple, Triple->>=, Triple->>, Triple-done, Triple-fail, Triple-if, Triple-weaken,
  Triple-return,
}
use ubuntu_vm_template_build.Proxmox.Install.Safety.{IsOwn, IsCreated, IsEnded, Inv}
use ubuntu_vm_template_build.Proxmox.Install.Safety.Prepared.{
  Carries, Lasts, Past, call-keeps, call-Carries, call-IsEnded, IsCreated-more,
}

module _ (cfg : ConnectionConfig) (client : Client) where
  module _ (vmid : ℤ) where
    -- The VM has been created.
    abbrev pub Mine : Assertion
    Mine = Past cfg (IsCreated cfg vmid)

    pub Mine-Lasts : Lasts cfg Mine
    Mine-Lasts e s c = IsCreated-more cfg vmid e s.history c

    -- The server has said that the VM is stopped.
    abbrev pub IsStopped : History → Type 0
    IsStopped = OneOf (got_vm_status cfg.node vmid (replied (codes "stopped")))

    -- The server has taken the values that end the installation, and its task has ended.
    abbrev pub IsFinalized : Config → History → Type 0
    IsFinalized build_cfg h =
        (values : Values) × (task : Text) × (build_finalize_vm_values build_cfg ≡ vm_values values)
        × IsEnded cfg task (updated_config cfg.node vmid values (replied task)) h

    -- The server has taken the conversion, if there is to be one, and its task has ended.
    abbrev pub IsConverted : Text → History → Type 0
    IsConverted output_type h =
        is_vm_output output_type ≡ false
        → (task : Text) × IsEnded cfg task (made_template cfg.node vmid (replied task)) h

    module _ (K : Assertion) (lasts : Lasts cfg K)
        (mine : (s : Progress) → K s → IsCreated cfg vmid s.history) where
      abbrev pub Keeps : {A : Type 0} → Step A → Type 0
      Keeps m = Triple (Carries cfg K) m (λ _. Carries cfg K) (Inv cfg)

      wait-IsStopped :
          (polls : ℕ)
          → Triple
              (Carries cfg K)
              (wait_for_power_off client cfg.node vmid polls)
              (λ _. Carries cfg (λ s. K s × IsStopped s.history))
              (Inv cfg)
      unfolding wait_for_power_off IsOwn
      wait-IsStopped zero = Triple-fail _ (λ s (i, _). i)
      wait-IsStopped (suc polls) =
          Triple->>= (call-Carries cfg K _ _ (got_vm_status cfg.node vmid) lasts (λ r s c. tt))
            (λ status.
              Triple->>=
                {Q = λ _.
                  Carries cfg
                    (λ s. K s × OneOf (got_vm_status cfg.node vmid (replied status)) s.history)}
                (record { runs = λ s p. p })
                (λ now.
                  Triple-if (equal status (codes "stopped"))
                    (λ stopped. Triple-done tt (λ s (i, (k, asked)). (
                      i,
                      (
                        k,
                        subst (λ t. OneOf (got_vm_status cfg.node vmid (replied t)) s.history)
                            ((equal_iff status (codes "stopped")).0 stopped) asked,
                      ),
                    )))
                    (λ _.
                      Triple-if now (λ _. Triple-fail _ (λ s (i, _). i))
                        (λ _.
                          Triple-weaken (λ s (i, (k, _)). (i, k)) (λ _ s p. p) (λ s i. i)
                            (wait-IsStopped polls)))))

      pub power_on-IsStopped :
          (polls : ℕ)
          → Triple
              (Carries cfg K)
              (power_on_and_wait_for_installer client cfg.node vmid polls)
              (λ _. Carries cfg (λ s. K s × IsStopped s.history))
              (Inv cfg)
      unfolding power_on_and_wait_for_installer IsOwn
      power_on-IsStopped polls =
          Triple->>=
            (call-keeps cfg K _ _ (started_vm cfg.node vmid) lasts (λ r s c. (refl, mine s c)))
            (λ task.
              Triple->> (call-keeps cfg K _ _ (waited cfg.node task) lasts (λ r s c. tt))
                (λ _. wait-IsStopped polls))

      change_config-keeps :
          (change : ConfigChange) (values : Values)
          → Triple
              (Carries cfg K)
              (change_config client cfg.node vmid change values)
              (λ _. Carries cfg (λ s.
                K s
                × ((task : Text) × IsEnded cfg task
                      (updated_config cfg.node vmid values (replied task))
                      s.history)))
              (Inv cfg)
      unfolding change_config IsOwn
      change_config-keeps change values =
          Triple->>=
            (call-Carries cfg K _ _ (updated_config cfg.node vmid values) lasts
              (λ r s c. (refl, mine s c)))
            (λ task.
              Triple-weaken (λ s p. p) (λ _ s (i, (k, m)). (i, (k, (task, m)))) (λ s i. i)
                (call-IsEnded cfg K _ _ task (updated_config cfg.node vmid values (replied task)) lasts))

      change_config-Keeps :
          (change : ConfigChange) (values : Values)
          → Keeps (change_config client cfg.node vmid change values)
      change_config-Keeps change values =
          Triple-weaken (λ s p. p) (λ _ s (i, (k, _)). (i, k)) (λ s i. i)
            (change_config-keeps change values)

      change_unless_empty-Keeps :
          (change : ConfigChange) (values : Values)
          → Keeps (change_unless_empty client cfg.node vmid change values)
      change_unless_empty-Keeps change values =
          Triple-if (is_empty values) (λ _. Triple-done tt (λ s p. p))
            (λ _. change_config-Keeps change values)

      pub finalize-IsFinalized :
          (build_cfg : Config)
          → Triple
              (Carries cfg K)
              (finalize_post_install_config client build_cfg cfg.node vmid)
              (λ _. Carries cfg (λ s. K s × IsFinalized build_cfg s.history))
              (Inv cfg)
      unfolding finalize_post_install_config
      finalize-IsFinalized build_cfg = finalized (build_finalize_vm_values build_cfg) refl
        where
          finalized :
              (v : VmValues)
              → build_finalize_vm_values build_cfg ≡ v
              → Triple
                  (Carries cfg K)
                  (values_of v >>= change_config client cfg.node vmid finalization)
                  (λ _. Carries cfg (λ s. K s × IsFinalized build_cfg s.history))
                  (Inv cfg)
          finalized (vm_values values) same =
              Triple-return (change_config client cfg.node vmid finalization) (
                Triple-weaken (λ s p. p)
                  (λ _ s (i, (k, (task, m))). (i, (k, (values, task, same, m)))) (λ s i. i)
                  (change_config-keeps finalization values))
          finalized (vm_refused e) same =
              Triple->>= {Q = λ _ _. ⊥} (Triple-fail _ (λ s (i, _). i))
                (λ values. record { runs = λ s p. absurd p })

      with_cloud_init-Keeps : (b : CloudInitBuilt) → Keeps (with_cloud_init client cfg.node vmid b)
      with_cloud_init-Keeps (cloud_init_built values) =
          change_unless_empty-Keeps cloud_init_options values
      with_cloud_init-Keeps (cloud_init_refused e) = Triple-fail _ (λ s (i, _). i)

      pub cloud_init-Keeps :
          (build_cfg : Config) → Keeps (apply_cloud_init_options client build_cfg cfg.node vmid)
      unfolding apply_cloud_init_options
      cloud_init-Keeps build_cfg =
          Triple-if (not build_cfg.cloud_init_options.enabled) (λ _. Triple-done tt (λ s p. p))
            (λ _. with_cloud_init-Keeps _)

      with_options-Keeps : (b : Built) → Keeps (with_options client cfg.node vmid b)
      with_options-Keeps (built values) = change_unless_empty-Keeps vm_options values
      with_options-Keeps (refused e) = Triple-fail _ (λ s (i, _). i)

      pub options-Keeps :
          (build_cfg : Config) → Keeps (apply_vm_options client build_cfg cfg.node vmid)
      unfolding apply_vm_options
      options-Keeps build_cfg =
          Triple-if (not build_cfg.options.enabled) (λ _. Triple-done tt (λ s p. p))
            (λ _. with_options-Keeps _)

      pub convert-IsConverted :
          (output_type : Text)
          → Triple
              (Carries cfg K)
              (maybe_convert_to_template client cfg.node vmid output_type)
              (λ _. Carries cfg (λ s. K s × IsConverted output_type s.history))
              (Inv cfg)
      unfolding maybe_convert_to_template IsOwn
      convert-IsConverted output_type =
          Triple-if (is_vm_output output_type)
            (λ vm. Triple-done tt (λ s (i, k). (i, (k, λ template. cc))))
            (λ _.
              Triple->>=
                (call-Carries cfg K _ _ (made_template cfg.node vmid) lasts
                  (λ r s c. (refl, mine s c)))
                (λ task.
                  Triple-weaken (λ s p. p) (λ _ s (i, (k, m)). (i, (k, λ _. (task, m)))) (λ s i. i)
                    (call-IsEnded cfg K _ _ task (made_template cfg.node vmid (replied task)) lasts)))
