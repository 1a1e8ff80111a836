-- ===== src/Proxmox/Install/Polling.antt =====
-- internal/backend/proxmox/proxmox.go: how the wait for the installer's power-off ends.
use ubuntu_vm_template_build.Base.{
  ℕ, zero, suc, ◌+◌, ◌≤◌, ℤ, ◌≡◌, ◌≢◌, ◌⊎◌, refl, ap, inl, inr, true, false, [], ◌∷◌, if◌then◌else◌,
  Bool-cases, codes, arith,
}
use ubuntu_vm_template_build.Text.{Text, equal}
use ubuntu_vm_template_build.Text.Trim.{equal_iff}
use ubuntu_vm_template_build.Proxmox.Client.{
  Client, History, Reply, replied, no_reply, made_iso, stat_file, validated_node,
  got_storage_status, listed_vms, got_next_id, asked_volume, uploaded, deleted_volume, created_vm,
  started_vm, got_vm_status, updated_config, made_template, stopped_vm, deleted_vm, waited,
}
use ubuntu_vm_template_build.Proxmox.Install.{
  Progress, Outcome, returned, failed, Step, call, expect, done, fail, then_do, ◌>>=◌,
  power_status_unknown, cancelled,
}
use ubuntu_vm_template_build.Proxmox.Install.Machine.{wait_for_power_off, is_interrupted}
use ubuntu_vm_template_build.Proxmox.Install.Triple.{with_event}

-- How often a VM's status has been asked for.
pub polls_in : History → ℕ
polls_in [] = 0
polls_in (got_vm_status node vmid r ∷ h) = suc (polls_in h)
polls_in (made_iso r ∷ h) = polls_in h
polls_in (stat_file path r ∷ h) = polls_in h
polls_in (validated_node node r ∷ h) = polls_in h
polls_in (got_storage_status node storage r ∷ h) = polls_in h
polls_in (listed_vms node r ∷ h) = polls_in h
polls_in (got_next_id r ∷ h) = polls_in h
polls_in (asked_volume node storage content volume r ∷ h) = polls_in h
polls_in (uploaded node storage upload r ∷ h) = polls_in h
polls_in (deleted_volume node storage volume r ∷ h) = polls_in h
polls_in (created_vm node values r ∷ h) = polls_in h
polls_in (started_vm node vmid r ∷ h) = polls_in h
polls_in (updated_config node vmid values r ∷ h) = polls_in h
polls_in (made_template node vmid r ∷ h) = polls_in h
polls_in (stopped_vm node vmid r ∷ h) = polls_in h
polls_in (deleted_vm node vmid r ∷ h) = polls_in h
polls_in (waited node task r ∷ h) = polls_in h

module _ (client : Client) (node : Text) (vmid : ℤ) where
  abbrev asked : History → History
  asked h = got_vm_status node vmid (client.current_vm_status h node vmid) ∷ h

  -- After so many polls the VM has stopped, or the operator has given up.
  abbrev pub Settles : ℕ → Type 0
  Settles limit =
      (h : History)
      → limit ≤ polls_in h
      → (client.current_vm_status h node vmid ≡ replied (codes "stopped"))
        ⊎ (client.interrupted (asked h) ≡ true)

  -- A result comes from a stopped VM; an error from a poll without a reply or from an interrupt.
  abbrev pub Ended : Outcome Unit × Progress → Type 0
  Ended (returned x, s) =
      (h : History) × (s.history ≡ got_vm_status node vmid (replied (codes "stopped")) ∷ h)
  Ended (failed e, s) =
      ((e ≡ power_status_unknown)
        × ((h : History) × (s.history ≡ got_vm_status node vmid no_reply ∷ h)))
      ⊎ ((e ≡ cancelled) × (client.interrupted s.history ≡ true))

  after_reply :
      (again : Step Unit) (r : Reply Text) (s : Progress)
      → ((status : Text)
          → r ≡ replied status
          → equal status (codes "stopped") ≡ false
          → client.interrupted (got_vm_status node vmid r ∷ s.history) ≡ false
          → Ended (again (with_event (got_vm_status node vmid r) s)))
      → Ended (
          then_do
            (expect power_status_unknown r (with_event (got_vm_status node vmid r) s))
            (λ status. is_interrupted client >>= (λ now.
              if equal status (codes "stopped")
              then done tt
              else if now
              then fail cancelled
              else again)))
  unfolding expect done fail ◌>>=◌
  after_reply again no_reply s go = inl (refl, (s.history, refl))
  after_reply again (replied status) s go = elim (Bool-cases (equal status (codes "stopped"))) [
    | inl stopped ↦ rw stopped (
      s.history,
      ap (λ t. got_vm_status node vmid (replied t) ∷ s.history)
          ((equal_iff status (codes "stopped")).0 stopped),
    )
    | inr running ↦
        elim (Bool-cases
          (client.interrupted (got_vm_status node vmid (replied status) ∷ s.history))) [
            | inl now ↦ rw (running, now) (inr (refl, now))
            | inr more ↦ rw (running, more) (go status refl running more)
          ]
  ]

  contradicts :
      (h : History) (r : Reply Text) (status : Text)
      → r ≡ replied status
      → equal status (codes "stopped") ≡ false
      → (r ≡ replied (codes "stopped"))
        ⊎ (client.interrupted (got_vm_status node vmid r ∷ h) ≡ true)
      → client.interrupted (got_vm_status node vmid r ∷ h) ≡ false
      → ⊥
  contradicts h r status e running (inl stopped) more = no_status (cc)
    where
      no_status : status ≢ codes "stopped"
      no_status same = cc ((equal_iff status (codes "stopped")).1 same)
  contradicts h r status e running (inr now) more = cc

  -- If after some number of polls the VM is found stopped or the build is interrupted, the wait with
  -- enough polls ends, and it ends well only with a poll that finds the VM stopped.
  pub wait_for_power_off-Ended :
      (limit polls : ℕ) (s : Progress)
      → Settles limit
      → limit ≤ polls + polls_in s.history
      → Ended (wait_for_power_off client node vmid (suc polls) s)
  unfolding wait_for_power_off call ◌>>=◌ polls_in
  wait_for_power_off-Ended limit zero s settles enough =
      after_reply (wait_for_power_off client node vmid 0)
        (client.current_vm_status s.history node vmid) s
        (λ status e running more. absurd (
          contradicts s.history _ status e running
            (settles s.history (let early : limit ≤ polls_in s.history = omega arith in early))
            more))
  wait_for_power_off-Ended limit (suc polls) s settles enough =
      after_reply (wait_for_power_off client node vmid (suc polls))
        (client.current_vm_status s.history node vmid) s
        (λ status e running more.
          wait_for_power_off-Ended limit polls (with_event _ s) settles (omega arith))
