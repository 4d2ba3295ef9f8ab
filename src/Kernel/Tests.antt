-- ===== src/Kernel/Tests.antt =====
-- A config.txt with one `os_prefix` and a cmdline.txt with `threadirqs` in its middle.
use rs_camera.Prelude.{◌≡◌, refl, true, false, [], ◌∷◌}
use rs_camera.Prelude.Exec.{ok}
use rs_camera.Text.{Str, codes, split, join, str_eq, rstrip}
use rs_camera.Text.Words.{words, starts_with}
use rs_camera.Kernel.Selection.{
  boot_selection, count_prefixes, prefix_line, prefix_lines, replace_prefix, select_prefix,
  select_words, without_threadirqs,
}
use rs_camera.Kernel.Prefixes.{boot_selection-prefix_lines}
use rs_camera.Kernel.Booting.{Boots, boot_selection-Boots}

abbrev config : Str
config = codes "[all]\nos_prefix=old/\ngpu=1\n"

abbrev cmdline : Str
cmdline = codes "threadirqs root=/dev/sda  quiet\n"

abbrev selected : Str × Str
selected = (codes "[all]\nos_prefix=rt/\ngpu=1\n", codes "root=/dev/sda quiet threadirqs\n")

select : boot_selection config cmdline (codes "rt") true ≡ ok selected
unfolding boot_selection select_prefix select_words without_threadirqs count_prefixes replace_prefix
    split join str_eq words starts_with
select = refl

select_appends :
    boot_selection (codes "gpu=1\n\n") (codes "root=1 threadirqs") (codes "rt") false
    ≡ ok (codes "gpu=1\n\n[all]\nos_prefix=rt/\n", codes "root=1\n")
unfolding boot_selection select_prefix select_words without_threadirqs count_prefixes replace_prefix
    split join str_eq words starts_with rstrip
select_appends = refl

boot_selection-Boots_example : Boots true selected
boot_selection-Boots_example = boot_selection-Boots config cmdline (codes "rt") true selected select

boot_selection-prefix_lines_example :
    prefix_lines (split 10 selected.0) ≡ prefix_line (codes "rt") ∷ []
boot_selection-prefix_lines_example =
    boot_selection-prefix_lines config cmdline (codes "rt") true selected refl select
