-- ===== src/Vcenter/Console/Streamed.antt =====
-- internal/backend/vcenter/console.go: what `run` and `finish` write of a log that grows while they
-- poll it, against the description by lines of the log.
use ubuntu_vm_template_build.Base.{
  ℕ, ◌^◌, ◌≤◌, ◌<◌, ◌≡◌, Bool, false, List, [], ◌++◌, length, take, codes, Bytes,
}
use ubuntu_vm_template_build.Text.{Text}
use ubuntu_vm_template_build.Qemulog.Writer.{new_compacting_writer}
use ubuntu_vm_template_build.Qemulog.Writer.Lines.{remaining}
use ubuntu_vm_template_build.Vcenter.Console.{
  Event, Server, is_missing_console_log, status_message, plain_error, Streamer,
}
use ubuntu_vm_template_build.Vcenter.Console.Server.{not_allowed, serve}

-- A streamer that has taken the first bytes of the log: its output goes on with what follows as if
-- all were read in one.
abbrev Took : Bytes → Streamer Bytes → Type 0
Took whole s =
    ((q : Bytes)
      → s.writer.out ++ remaining s.writer q
        ≡ remaining (new_compacting_writer []) (take s.offset whole ++ q))
    × (s.bytes_read ≡ s.offset)

module _ (head_ok ranges : Bool) (whole : Bytes) (grown : ℕ → ℕ) (path : Text)
    (grows : (m n : ℕ) → m ≤ n → grown m ≤ grown n) (inside : (n : ℕ) → grown n ≤ length whole)
    (bounded : length whole < 2 ^ 63)
    (not_missing : is_missing_console_log
        (plain_error (status_message (codes "HEAD") path not_allowed))
      ≡ false) where
  abbrev server : Server
  server = serve head_ok ranges whole grown

  -- Never more has been taken than the log had.
  abbrev Good : Streamer Bytes → List Event → Type 0
  Good s h = Took whole s × (s.offset ≤ grown (length h))
