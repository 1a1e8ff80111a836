-- ===== src/Vcenter/Tests.antt =====
-- internal/backend/vcenter/console.go: runs of the code, and the theorem at a concrete input.
use ubuntu_vm_template_build.Base.{
  ℕ, ◌+◌, ◌≡◌, refl, true, none, some, ltb, if◌then◌else◌, codes, Bytes,
}
use ubuntu_vm_template_build.Text.{
  Text, trim_space, trim_by, trim_left_by, trim_right_by, is_space, equal, to_lower, lower,
  contains, has_prefix,
}
use ubuntu_vm_template_build.Decimal.Parse.{parse_non_negative, parse_digits}
use ubuntu_vm_template_build.Vcenter.Console.{
  plain_error, status_message, is_missing_console_log, after_last_slash, total_of,
  parse_content_range_total,
}
use ubuntu_vm_template_build.Vcenter.Console.Server.{not_allowed}

abbrev header : Text
header = codes " bytes 0-0/1234 "

total : parse_content_range_total header ≡ some 1234
unfolding parse_content_range_total total_of after_last_slash trim_space trim_by trim_left_by
    trim_right_by is_space equal parse_non_negative parse_digits
total = refl

no_total : parse_content_range_total (codes "bytes 0-0/*") ≡ none
unfolding parse_content_range_total total_of after_last_slash trim_space trim_by trim_left_by
    trim_right_by is_space equal parse_non_negative parse_digits
no_total = refl

abbrev boot_log : Bytes
boot_log = codes "boot\n\n\ndone"

-- Three bytes at each request.
abbrev growth : ℕ → ℕ
growth n = if ltb n 3 then n + n + n else 11

abbrev path : Text
path = codes "vm/serial.log"

-- A path with 404 in it, on a host without HEAD: the log counts as missing, so nothing of it is ever
-- streamed and nothing is said.
abbrev path_404 : Text
path_404 = codes "vm-404/serial.log"

missing_404 :
    is_missing_console_log (plain_error (status_message (codes "HEAD") path_404 not_allowed)) ≡ true
unfolding is_missing_console_log to_lower lower contains has_prefix
missing_404 = refl
