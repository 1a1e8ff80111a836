-- ===== src/Offline/Quote.antt =====
-- internal/offlineapt/offlineapt.go: arguments as words of a shell.
pub mod ReadBack
use ubuntu_vm_template_build.Base.{List, [], ◌∷◌, ◌++◌, map, if◌then◌else◌, is_empty, codes}
use ubuntu_vm_template_build.Text.{Text, replace_all, join}

unfoldable pub shell_quote : Text → Text
shell_quote value =
    if is_empty value
    then codes "''"
    else codes "'" ++ (replace_all value b'\'' (codes "'\"'\"'") ++ codes "'")

unfoldable pub shell_join : List Text → Text
shell_join args = join (map shell_quote args) (codes " ")

unfoldable pub command_string : Text → List Text → Text
command_string name args = join (shell_quote name ∷ map shell_quote args) (codes " ")
