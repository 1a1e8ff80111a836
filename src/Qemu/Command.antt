-- ===== src/Qemu/Command.antt =====
-- internal/backend/qemu/qemu.go: runInterruptibleCommand. What QEMU writes is taken in when it has
-- ended; a build that ends before that fails whatever it was.
pub mod Ended
use ubuntu_vm_template_build.Base.{List, [], ◌∷◌, Option, none, some}
use ubuntu_vm_template_build.Text.{Text}
use ubuntu_vm_template_build.Qemu.Host.{
  Action, start_qemu, Signal, interrupt, terminate, SentSignal, sigint, sigterm, sigkill, KillError,
  no_such_process, not_sent, Exit, First, ended, received, Second, ended_in_time, received_again,
  timed_out, Event, did, selected, selected_then, sent, ended_at_last, QemuHost,
}
use ubuntu_vm_template_build.Qemu.Console.{ConsoleError, Sink, Console, new_console, take_pieces}

pub data CommandError : Type 0 where
  not_started exit_status stop_failed kill_failed : Text → CommandError
  not_copied : ConsoleError → CommandError
  stopped_after_interrupt : Option Text → CommandError
  killed_after_interrupt killed_after_timeout : CommandError

-- The error, what has been made of the output, and the history.
abbrev pub CommandResult : Type 0
CommandResult = Option CommandError × Console × List Event

-- `signalToSyscall`
abbrev pub signal_to_syscall : Signal → SentSignal
signal_to_syscall interrupt = sigint
signal_to_syscall terminate = sigterm

-- `signalCommandProcessGroup`, of a process that has been started
abbrev pub kill_error : Option KillError → Option Text
kill_error none = none
kill_error (some no_such_process) = none
kill_error (some (not_sent e)) = some e

abbrev pub copy_error : Option ConsoleError → Option ConsoleError → Option CommandError
copy_error (some e) other = some (not_copied e)
copy_error none (some e) = some (not_copied e)
copy_error none none = none

-- `cmd.Wait`: an error of the status, else one of the copying.
abbrev pub wait_error : Option Text → Console → Option CommandError
wait_error (some e) c = some (exit_status e)
wait_error none c = copy_error c.out.failure c.error_out.failure

abbrev pub output_of : QemuHost → Exit → Console
output_of host exit = take_pieces host new_console exit.pieces

-- `fmt.Errorf` with what `cmd.Wait` returns.
abbrev pub stopped_error : Option CommandError → CommandError
stopped_error (some (exit_status e)) = stopped_after_interrupt (some e)
stopped_error e = stopped_after_interrupt none

abbrev pub after_kill : QemuHost → CommandError → Option Text → List Event → CommandResult
after_kill host error (some e) h = (some (kill_failed e), new_console, h)
after_kill host error none h =
    let exit = host.last h in (some error, output_of host exit, ended_at_last exit ∷ h)

abbrev pub kill_qemu : QemuHost → CommandError → List Event → CommandResult
kill_qemu host error h =
    let answer = host.kill h sigkill in
    after_kill host error (kill_error answer) (sent sigkill answer ∷ h)

-- The second `select`
abbrev pub after_second : QemuHost → Second → List Event → CommandResult
after_second host (ended_in_time exit) h =
    let c = output_of host exit in (some (stopped_error (wait_error exit.status c)), c, h)
after_second host (received_again signal) h = kill_qemu host killed_after_interrupt h
after_second host timed_out h = kill_qemu host killed_after_timeout h

abbrev pub after_stop : QemuHost → Option Text → List Event → CommandResult
after_stop host (some e) h = (some (stop_failed e), new_console, h)
after_stop host none h =
    let taken = host.second h in after_second host taken (selected_then taken ∷ h)

-- The first `select`
abbrev pub after_first : QemuHost → First → List Event → CommandResult
after_first host (ended exit) h =
    let c = output_of host exit in (wait_error exit.status c, c, h)
after_first host (received signal) h =
    let stop = signal_to_syscall signal in
    let answer = host.kill h stop in
    after_stop host (kill_error answer) (sent stop answer ∷ h)

unfoldable pub wait_interruptible_command : QemuHost → List Event → CommandResult
wait_interruptible_command host h =
    let taken = host.first h in after_first host taken (selected taken ∷ h)

abbrev pub after_start : QemuHost → Option Text → List Event → CommandResult
unfolding wait_interruptible_command
after_start host (some e) h = (some (not_started e), new_console, h)
after_start host none h = wait_interruptible_command host h

unfoldable pub run_interruptible_command : QemuHost → List Text → List Event → CommandResult
unfolding after_start
run_interruptible_command host args h =
    let answer = host.perform h (start_qemu args) in
    after_start host answer (did (start_qemu args) answer ∷ h)
