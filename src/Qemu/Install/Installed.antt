-- ===== src/Qemu/Install/Installed.antt =====
-- internal/backend/qemu/qemu.go: what an installation that reports success has done.
use ubuntu_vm_template_build.Base.{
  ℕ, ◌≡◌, refl, sym, ap, ◌∙◌, subst, inl, inr, Bool, true, false, List, [], ◌∷◌, ◌++◌, map, flatten,
  Option, none, some, if◌then◌else◌, is_empty, codes, Bool-cases, Result, ok, err, OneOf,
}
use ubuntu_vm_template_build.Text.{Text}
use ubuntu_vm_template_build.Steps.{done, ◌>>=◌, ◌>>◌}
use ubuntu_vm_template_build.Steps.Triple.{
  Assertion, Post, Triple, Triple-done, Triple-if, Triple->>=, Triple->>,
}
use ubuntu_vm_template_build.Offline.Install.{Repository, install_config}
use ubuntu_vm_template_build.Seed.UserData.{transform_user_data}
use ubuntu_vm_template_build.Qemu.Detector.{
  new_detector, installer_failure_markers, write_all, error_marker,
}
use ubuntu_vm_template_build.Qemu.Detector.Whole.{HasNone, HasOne, error_marker-write_all}
use ubuntu_vm_template_build.Qemu.Host.{
  Action, start_qemu, remove_all, open_file, create_file, copy_data, close_file, Exit, ended, Event,
  did, selected, stdout, stderr, QemuHost,
}
use ubuntu_vm_template_build.Qemu.Console.{Console, new_console, take_pieces, flush_error}
use ubuntu_vm_template_build.Qemu.Console.Copied.{IsFine, take_pieces-copied}
use ubuntu_vm_template_build.Qemu.Command.{
  CommandError, CommandResult, output_of, run_interruptible_command,
}
use ubuntu_vm_template_build.Qemu.Command.Ended.{IsEnded, run_interruptible_command-IsEnded}
use ubuntu_vm_template_build.Qemu.Installer.{
  Installer, QemuError, act, is_uefi, copy_file, uefi_firmware_args, machine_args, media_args,
  qemu_args,
}
use ubuntu_vm_template_build.Qemu.Install.{
  all_none, is_good, after_args, run_qemu_installation, seed_path, in_temp_dir, prepare,
  after_prepare, cleanup, install,
}
use ubuntu_vm_template_build.Qemu.Install.Sequence.{Sub, At, is_harmless, act-kept, is_start}
use ubuntu_vm_template_build.Qemu.Install.Prepared.{IsRepository, prepared, IsDiskAction}
use ubuntu_vm_template_build.Qemu.Install.Ready.{milestones, IsReady, prepare-IsReady}

-- All that QEMU has written, on both streams.
abbrev pub output : Exit → Text
output exit = flatten (map (λ piece. piece.1) exit.pieces)

-- The arguments of QEMU; between those of the machine and those of the media stand those of the
-- firmware.
pub IsQemuArgs : Installer → List Text → Type 0
IsQemuArgs p args =
    (firmware : List Text)
    × (args
      ≡ machine_args p
        ++ (firmware
          ++ media_args p (seed_path p) (in_temp_dir p (codes "vmlinuz"))
            (in_temp_dir p (codes "initrd"))))

-- The repository is complete, if there is to be one; the ISO is made with it; the seed has the user
-- data for it; the image is made; the kernel and the initial file system come from the new ISO; QEMU
-- is started with all of these, ends by itself with a good status, and no failure stands in what it
-- has written.
pub record IsInstalled (host : QemuHost) (i : Installer) (h : List Event) : Type 0 where
  pub repo : Repository
  pub is_repository : IsRepository i repo
  pub user_data : Text
  pub is_user_data :
      transform_user_data host.decode host.encode (install_config repo) i.user_data ≡ ok user_data
  pub disk : Action
  pub is_disk : IsDiskAction i disk
  pub kernel : Text
  pub initrd : Text
  pub args : List Text
  pub is_args : IsQemuArgs (prepared i repo) args
  pub exit : Exit
  pub good_status : exit.status ≡ none
  pub no_failure : HasNone (output exit) installer_failure_markers
  pub happened :
      Sub
        (selected (ended exit)
          ∷ did (start_qemu args) none
          ∷ milestones i repo user_data disk kernel initrd)
        h

-- Nothing but the order of the events is kept.
abbrev Any : Assertion Event
Any h = Unit

abbrev any : (e : Event) (h : List Event) → is_harmless e ≡ true → Any h → Any (e ∷ h)
any e h k u = tt

is_good-true :
    (host : QemuHost) (e : Option CommandError) (c : Console)
    → is_good host e c ≡ true
    → (e ≡ none) × (error_marker c.detector ≡ none)
unfolding is_good
is_good-true host (some e) c h = absurd (cc h)
is_good-true host none c h = (refl, last _ _ _ h)
  where
    last : (a b d : Option Text) → all_none a b d ≡ true → d ≡ none
    last (some e) b d h = absurd (cc h)
    last none (some e) d h = absurd (cc h)
    last none none (some e) h = absurd (cc h)
    last none none none h = refl

no_failure-output :
    (host : QemuHost) (exit : Exit)
    → IsFine host (output_of host exit)
    → error_marker (output_of host exit).detector ≡ none
    → HasNone (output exit) installer_failure_markers
no_failure-output host exit fine quiet =
    let pieces = map (λ piece. piece.1) exit.pieces in
    let same = take_pieces-copied host exit.pieces new_console fine in
    elim (error_marker-write_all pieces) [
      | inl (_, free) ↦ free
      | inr (m, found, _) ↦ absurd (cc (found, ap error_marker same, quiet))
    ]
