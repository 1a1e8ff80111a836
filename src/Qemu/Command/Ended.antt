-- ===== src/Qemu/Command/Ended.antt =====
-- internal/backend/qemu/qemu.go: a command without an error has ended by itself, and well.
use ubuntu_vm_template_build.Base.{
  ◌≡◌, refl, sym, ap, ◌∙◌, inl, inr, List, [], ◌∷◌, Option, none, some, Option-cases,
}
use ubuntu_vm_template_build.Text.{Text}
use ubuntu_vm_template_build.Qemu.Host.{
  start_qemu, Exit, First, ended, received, Second, ended_in_time, received_again, timed_out, Event,
  did, selected, QemuHost,
}
use ubuntu_vm_template_build.Qemu.Console.{ConsoleError, Console}
use ubuntu_vm_template_build.Qemu.Console.Copied.{IsFine}
use ubuntu_vm_template_build.Qemu.Command.{
  CommandError, CommandResult, copy_error, wait_error, output_of, after_kill, kill_error, kill_qemu,
  after_second, after_stop, after_first, wait_interruptible_command, after_start,
  run_interruptible_command,
}

-- The command is seen to end with a good status, all its output has been copied, and nothing else
-- has happened since it was started.
abbrev pub IsEnded : QemuHost → List Text → List Event → CommandResult → Type 0
IsEnded host args h (error, c, h') =
    (exit : Exit) × (exit.status ≡ none)
    × (c ≡ output_of host exit)
    × IsFine host c
    × (h' ≡ selected (ended exit) ∷ did (start_qemu args) none ∷ h)

copy_error-fine :
    (a b : Option ConsoleError) → copy_error a b ≡ none → (a ≡ none) × (b ≡ none)
copy_error-fine (some e) b h = absurd (cc h)
copy_error-fine none (some e) h = absurd (cc h)
copy_error-fine none none h = (refl, refl)

wait_error-fine :
    (host : QemuHost) (status : Option Text) (c : Console)
    → wait_error status c ≡ none
    → (status ≡ none) × IsFine host c
wait_error-fine host (some e) c h = absurd (cc h)
wait_error-fine host none c h = (refl, copy_error-fine _ _ h)

module _ (host : QemuHost) where
  after_kill-fails :
      (e : CommandError) (o : Option Text) (h : List Event) → (after_kill host e o h).0 ≡ none → ⊥
  after_kill-fails e (some t) h g = cc g
  after_kill-fails e none h g = cc g

  after_second-fails :
      (s : Second) (h : List Event) → (after_second host s h).0 ≡ none → ⊥
  after_second-fails (ended_in_time exit) h g = cc g
  after_second-fails (received_again signal) h g = after_kill-fails _ _ _ g
  after_second-fails timed_out h g = after_kill-fails _ _ _ g

  after_stop-fails : (o : Option Text) (h : List Event) → (after_stop host o h).0 ≡ none → ⊥
  after_stop-fails (some e) h g = cc g
  after_stop-fails none h g = after_second-fails (host.second h) _ g

  after_first-IsEnded :
      (args : List Text) (f : First) (h : List Event)
      → let h' = selected f ∷ did (start_qemu args) none ∷ h in
        (after_first host f h').0 ≡ none
      → IsEnded host args h (after_first host f h')
  after_first-IsEnded args (received signal) h g = absurd (after_stop-fails _ _ g)
  after_first-IsEnded args (ended exit) h g =
      let (status, fine) = wait_error-fine host exit.status (output_of host exit) g in
      (exit, status, refl, fine, refl)

  after_start-IsEnded :
      (args : List Text) (o : Option Text) (h : List Event)
      → let h' = did (start_qemu args) o ∷ h in
        (after_start host o h').0 ≡ none
      → IsEnded host args h (after_start host o h')
  unfolding after_start wait_interruptible_command
  after_start-IsEnded args (some e) h g = absurd (cc g)
  after_start-IsEnded args none h g = after_first-IsEnded args (host.first _) h g

  pub run_interruptible_command-IsEnded :
      (args : List Text) (h : List Event)
      → (run_interruptible_command host args h).0 ≡ none
      → IsEnded host args h (run_interruptible_command host args h)
  unfolding run_interruptible_command
  run_interruptible_command-IsEnded args h g =
      after_start-IsEnded args (host.perform h (start_qemu args)) h g
