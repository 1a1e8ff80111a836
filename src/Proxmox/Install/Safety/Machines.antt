-- ===== src/Proxmox/Install/Safety/Machines.antt =====
-- internal/backend/proxmox/proxmox.go: the VM's calls are for the VM that this run has created.
use ubuntu_vm_template_build.Base.{ℤ, ◌≡◌, refl, sym, subst, true, is_positive, inl}
use ubuntu_vm_template_build.Text.{Text}
use ubuntu_vm_template_build.Proxmox.Values.{Values}
use ubuntu_vm_template_build.Proxmox.Config.{Config, ConnectionConfig}
use ubuntu_vm_template_build.Proxmox.Vm.{VmValues, vm_values, vm_refused, build_create_vm_values}
use ubuntu_vm_template_build.Proxmox.Vm.Sent.{IsRequestFor, build_create_vm_values-IsRequestFor}
use ubuntu_vm_template_build.Proxmox.Client.{Client, got_next_id, created_vm, waited}
use ubuntu_vm_template_build.Proxmox.Install.{call, creation_failed}
use ubuntu_vm_template_build.Proxmox.Install.Machine.{select_vmid, values_of, set_vmid, request_vm}
use ubuntu_vm_template_build.Proxmox.Install.Run.{set_created, create_vm}
use ubuntu_vm_template_build.Proxmox.Install.Triple.{
  Assertion, Triple, Triple->>=, Triple->>, Triple-done, Triple-fail, Triple-if, Triple-call,
  Triple-update, Triple-or_first, Triple-weaken,
}
use ubuntu_vm_template_build.Proxmox.Install.Safety.{IsOwn, IsCreated, Inv}
use ubuntu_vm_template_build.Proxmox.Install.Safety.Prepared.{
  Carries, Lasts, call-keeps, IsCreated-more, IsUploaded-more, Inv-with_event,
}
use ubuntu_vm_template_build.Proxmox.Install.Safety.Uploads.{
  delete_temporary_iso-Inv, Placed, Before,
}

module _ (cfg : ConnectionConfig) (client : Client) where
  Before-Lasts : (volume : Text) → Lasts cfg (Before cfg client volume)
  Before-Lasts volume e s ((u, p), b) =
      ((IsUploaded-more cfg cfg.iso_storage volume e s.history u, p), b)

  select_vmid-keeps :
      (K : Assertion)
      → Lasts cfg K
      → Triple (Carries cfg K) (select_vmid client cfg) (λ _. Carries cfg K) (Inv cfg)
  unfolding select_vmid IsOwn
  select_vmid-keeps K lasts =
      Triple-if (is_positive cfg.vmid) (λ _. Triple-done cfg.vmid (λ s p. p))
        (λ _. Triple->>= (call-keeps cfg K _ _ got_next_id lasts (λ r h k. tt)) (λ vmid.
          Triple-if (is_positive vmid) (λ _. Triple-done vmid (λ s p. p))
            (λ _. Triple-fail _ (λ s (i, _). i))))

  -- Values that were built are those that the step returns.
  pub values_of-keeps :
      (K : Assertion) (v : VmValues)
      → Triple
          (Carries cfg K)
          (values_of v)
          (λ values s. Carries cfg K s × (v ≡ vm_values values))
          (Inv cfg)
  values_of-keeps K (vm_values values) = Triple-done values (λ s p. (p, refl))
  values_of-keeps K (vm_refused e) = Triple-fail _ (λ s (i, _). i)

  -- The number in the state is that of a VM whose creation the server has accepted.
  abbrev Requested : Text → ℤ → Assertion
  Requested volume vmid s =
      IsCreated cfg vmid s.history × ((s.build.vmid ≡ vmid) × Placed cfg client volume s)

  request-Requested :
      (volume : Text) (vmid : ℤ) (values : Values)
      → Triple
          (λ s.
            (Carries cfg (Before cfg client volume) s × (s.build.vmid ≡ vmid))
            × IsRequestFor vmid volume values)
          (call creation_failed
            (λ h. client.create_vm h cfg.node values)
            (created_vm cfg.node values))
          (λ task. Carries cfg (Requested volume vmid))
          (Inv cfg)
  unfolding IsOwn
  request-Requested volume vmid values =
      Triple-call _ _ _
        (λ s task (((i, ((u, p), b)), same), request). (
          Inv-with_event cfg _ s i (refl, (volume, u, request.cdrom)),
          (
            record {
              values = values;
              task = task;
              created = inl refl;
              numbered = request.numbered;
            },
            (same, (IsUploaded-more cfg cfg.iso_storage volume _ s.history u, p)),
          ),
        ))
        (λ s (((i, ((u, p), b)), same), request).
          Inv-with_event cfg _ s i (refl, (volume, u, request.cdrom)))

  request_vm-Requested :
      (build_cfg : Config) (volume : Text)
      → Triple
          (Carries cfg (Before cfg client volume))
          (request_vm client cfg build_cfg volume)
          (λ (vmid, task). Carries cfg (Requested volume vmid))
          (Inv cfg)
  unfolding request_vm
  request_vm-Requested build_cfg volume =
      let cleanup = delete_temporary_iso-Inv cfg client in
      Triple->>=
        (Triple-or_first cleanup
          (select_vmid-keeps (Before cfg client volume) (Before-Lasts volume)))
        (λ vmid.
          Triple->>
            (Triple-update
              {Q = λ _ s. Carries cfg (Before cfg client volume) s × (s.build.vmid ≡ vmid)}
              (set_vmid vmid)
              (λ s (i, (u, b)). (
                (
                  record { own = i.own; machine = λ made. cc; iso = i.iso; storage = i.storage },
                  (u, b),
                ),
                refl,
              )))
            (λ _.
              Triple->>=
                {Q = λ values s.
                  (Carries cfg (Before cfg client volume) s × (s.build.vmid ≡ vmid))
                  × IsRequestFor vmid volume values}
                (Triple-or_first cleanup (
                  Triple-weaken (λ s ((i, u), same). (i, (u, same)))
                    (λ values s ((i, (u, same)), made). (
                      ((i, u), same),
                      build_create_vm_values-IsRequestFor build_cfg vmid volume values made,
                    ))
                    (λ s i. i)
                    (values_of-keeps (λ s. Before cfg client volume s × (s.build.vmid ≡ vmid))
                      (build_create_vm_values build_cfg vmid volume))))
                (λ values.
                  Triple->>= (Triple-or_first cleanup (request-Requested volume vmid values))
                    (λ task. Triple-done (vmid, task) (λ s p. p)))))

  -- Behind the creation, the state's VM is one whose creation the server has accepted.
  pub create_vm-IsCreated :
      (build_cfg : Config) (volume : Text)
      → Triple
          (Carries cfg (Before cfg client volume))
          (create_vm client cfg build_cfg volume)
          (λ vmid. Carries cfg (λ s. IsCreated cfg vmid s.history × Placed cfg client volume s))
          (Inv cfg)
  unfolding create_vm IsOwn
  create_vm-IsCreated build_cfg volume =
      Triple->>= (request_vm-Requested build_cfg volume) (λ (vmid, task).
        Triple->>
          (call-keeps cfg (Requested volume vmid) _ _ (waited cfg.node task)
            (λ e s (c, (same, (u, p))). (
              IsCreated-more cfg vmid e s.history c,
              (same, (IsUploaded-more cfg cfg.iso_storage volume e s.history u, p)),
            )) (λ r s k. tt))
          (λ _.
            Triple->>
              (Triple-update {Q = λ _. Carries cfg (λ s. IsCreated cfg vmid s.history × Placed cfg client volume s)}
                (set_created true)
                (λ s (i, (c, (same, placed))). (
                  record {
                    own = i.own;
                    machine = λ _. subst (λ v. IsCreated cfg v s.history) (sym same) c;
                    iso = i.iso;
                    storage = i.storage;
                  },
                  (c, placed),
                )))
              (λ _. Triple-done vmid (λ s p. p))))
