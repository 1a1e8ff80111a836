-- ===== src/Qemu/Console.antt =====
-- internal/backend/qemu/qemu.go: what becomes of the output of QEMU. Each of its two streams goes to a
-- writer that squeezes it and to the detector of failures, which both share.
pub mod Copied
use ubuntu_vm_template_build.Base.{
  ℕ, Bool, true, false, not, List, [], ◌∷◌, Option, none, some, ◌==◌, if◌then◌else◌, length, Bytes,
}
use ubuntu_vm_template_build.Text.{Text}
use ubuntu_vm_template_build.Qemulog.Writer.{CompactingWriter, new_compacting_writer, flush}
use ubuntu_vm_template_build.Qemulog.Writer
use ubuntu_vm_template_build.Qemu.Detector.{
  InstallerFailureDetector, new_detector, write, error_marker,
}
use ubuntu_vm_template_build.Qemu.Host.{Stream, stdout, stderr, Exit, QemuHost}

pub data ConsoleError : Type 0 where
  not_written : Text → ConsoleError
  short_write : ConsoleError

-- A stream's writer, and the error that has ended the copying of it.
pub record Sink : Type 0 where
  pub log : CompactingWriter (List Bytes)
  pub failure : Option ConsoleError

pub record Console : Type 0 where
  pub out : Sink
  pub error_out : Sink
  pub detector : InstallerFailureDetector

abbrev pub new_sink : Sink
new_sink = record { log = new_compacting_writer []; failure = none }

abbrev pub new_console : Console
new_console = record { out = new_sink; error_out = new_sink; detector = new_detector }

-- The program's own output, which keeps what it is given.
abbrev pub put : QemuHost → Stream → Bytes → List Bytes → List Bytes × Option Text
put host stream p written = (p ∷ written, host.write_out stream written p)

-- What `io.MultiWriter` does with what its first writer returns: the second one has the piece only if
-- all of it was written.
abbrev pub after_log :
    InstallerFailureDetector
    → Text
    → CompactingWriter (List Bytes) × ℕ × Option Text
    → Sink × InstallerFailureDetector
after_log d p (w, n, some e) = (record { log = w; failure = some (not_written e) }, d)
after_log d p (w, n, none) =
    if n == length p
    then (record { log = w; failure = none }, (write d p).0)
    else (record { log = w; failure = some short_write }, d)

-- A piece of a stream; after an error nothing more of it is copied.
abbrev pub copy_unless :
    QemuHost
    → Stream
    → Option ConsoleError
    → Sink
    → InstallerFailureDetector
    → Text
    → Sink × InstallerFailureDetector
copy_unless host stream (some e) sink d p = (sink, d)
copy_unless host stream none sink d p =
    after_log d p (Writer.write (put host stream) sink.log p)

unfoldable pub take_piece : QemuHost → Console → Stream × Text → Console
unfolding Writer.write
take_piece host c (stdout, p) =
    let (sink, d) = copy_unless host stdout c.out.failure c.out c.detector p in
    record c { out = sink; detector = d }
take_piece host c (stderr, p) =
    let (sink, d) = copy_unless host stderr c.error_out.failure c.error_out c.detector p in
    record c { error_out = sink; detector = d }

unfoldable pub take_pieces : QemuHost → Console → List (Stream × Text) → Console
take_pieces host c [] = c
take_pieces host c (piece ∷ pieces) = take_pieces host (take_piece host c piece) pieces

-- `Flush`, and the error of it.
abbrev pub flush_error : QemuHost → Stream → Sink → Option Text
flush_error host stream sink = (flush (put host stream) sink.log).1
