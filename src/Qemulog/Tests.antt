-- ===== src/Qemulog/Tests.antt =====
-- internal/qemulog: runs on small inputs, and the theorems at inputs that meet their hypotheses.
use Prim.Native.String.{String}
use ubuntu_vm_template_build.Base.{
  ◌≤◌, ◌<◌, ◌≡◌, refl, true, false, [], ◌∷◌, ◌++◌, Option, none, some, arith, All, Bytes, codes,
  length, List, flatten,
}
use ubuntu_vm_template_build.Qemulog.Sanitize.{
  esc, is_kept, skip_csi_from, skip_csi, is_string_terminator, skip_osc_from, skip_osc,
  is_designator, skip_escape, sanitize_loop, sanitize_line,
}
use ubuntu_vm_template_build.Qemulog.Sanitize.Laws.{
  skip_escape_bounds, sanitize_line_clean, sanitize_line_csi,
}
use ubuntu_vm_template_build.Qemulog.Sanitize.Machine.{clean, plain, sanitize_line-clean}
use ubuntu_vm_template_build.Qemulog.Writer.{
  new_compacting_writer, write, flush, write_from, write_byte, take_byte, emit_buffered_line,
  emit_line, has_visible_content,
}
use ubuntu_vm_template_build.Qemulog.Writer.Feed.{resume, with_crlf, write-append, write-with_crlf}
use ubuntu_vm_template_build.Qemulog.Writer.Lines.{
  collect, with_lf, lines, squeeze, IsOutputLine, NoBlankPair, write-squeeze, write-NoBlankPair,
}

-- A green "ok" with a title sequence in front.
abbrev colored : Bytes
colored = esc ∷ (codes "]0;t" ++ (0x07 ∷ esc ∷ (codes "[32mok" ++ (esc ∷ codes "[0m"))))

colored_ok : sanitize_line colored ≡ codes "ok"
unfolding sanitize_line sanitize_loop skip_escape skip_csi skip_csi_from skip_osc skip_osc_from
    is_string_terminator is_designator is_kept
colored_ok = refl

unfinished : sanitize_line (codes "a" ++ (esc ∷ codes "[3")) ≡ codes "a"
unfolding sanitize_line sanitize_loop skip_escape skip_csi skip_csi_from skip_osc skip_osc_from
    is_string_terminator is_designator is_kept
unfinished = refl

skip_escape_bounds_example : (0 < skip_escape colored 0) × (skip_escape colored 0 ≤ length colored)
skip_escape_bounds_example = skip_escape_bounds colored 0 (omega arith)

sanitize_line_clean_example :
    All (λ b. is_kept b ≡ true) (sanitize_line colored)
    × (sanitize_line (sanitize_line colored) ≡ sanitize_line colored)
sanitize_line_clean_example = sanitize_line_clean colored

sanitize_line-clean_example : sanitize_line colored ≡ clean plain colored
sanitize_line-clean_example = sanitize_line-clean colored

sanitize_line_csi_example :
    sanitize_line (codes "ok" ++ (esc ∷ b'[' ∷ (codes "0;1" ++ (b'm' ∷ codes "!"))))
    ≡ codes "ok" ++ sanitize_line (codes "!")
unfolding is_kept
sanitize_line_csi_example =
    sanitize_line_csi (codes "ok") (codes "0;1") b'm' (codes "!") (refl, (refl, tt))
      (refl, (refl, (refl, tt))) refl

-- An output that takes at most four bytes in all.
abbrev brief : Bytes → Bytes → Bytes × Option String
brief p [] = (p, none)
brief p (b ∷ out) = (b ∷ out, some "full")

write-append_example :
    write brief (new_compacting_writer []) (codes "a\nb" ++ codes "\nc")
    ≡ resume brief (write brief (new_compacting_writer []) (codes "a\nb")) (codes "\nc")
write-append_example = write-append brief (codes "a\nb") (codes "\nc") (new_compacting_writer [])

-- The write of the line's end fails: the count is the index of the LF.
brief_fails : (write brief (new_compacting_writer []) (codes "a\nb")).1 ≡ 1
unfolding write write_from write_byte take_byte emit_buffered_line emit_line has_visible_content
    sanitize_line sanitize_loop skip_escape skip_csi skip_csi_from skip_osc skip_osc_from
    is_string_terminator is_designator is_kept
brief_fails = refl

write-with_crlf_example :
    ((write collect (new_compacting_writer []) (with_crlf (codes "a\n\nb"))).0
      ≡ (write collect (new_compacting_writer []) (codes "a\n\nb")).0)
    × ((write collect (new_compacting_writer []) (with_crlf (codes "a\n\nb"))).2
        ≡ (write collect (new_compacting_writer []) (codes "a\n\nb")).2)
write-with_crlf_example =
    write-with_crlf collect (codes "a\n\nb") (new_compacting_writer [])
      (refl, (refl, (refl, (refl, tt)))) refl

abbrev log : Bytes
log = codes "a\r\n\r\n\n\rb"

write-squeeze_example :
    ((write collect (new_compacting_writer []) log).1 ≡ length log)
    × ((write collect (new_compacting_writer []) log).2 ≡ none)
    × ((flush collect (write collect (new_compacting_writer []) log).0).0.out
        ≡ flatten (squeeze false (lines [] (with_lf false log))))
write-squeeze_example = write-squeeze log

write-NoBlankPair_example :
    (ls : List Bytes) × ((flush collect (write collect (new_compacting_writer []) log).0).0.out
      ≡ flatten ls)
    × All IsOutputLine ls
    × NoBlankPair false ls
write-NoBlankPair_example = write-NoBlankPair log
