-- ===== src/CpuList/Tests.antt =====
-- The CPU lists of the campaigns, and the theorems on them.
use rs_camera.Prelude.{ℕ, ◌≡◌, refl, List, [], ◌∷◌, arith, all, is_empty, true}
use rs_camera.Prelude.Exec.{ok, err, is_ok}
use rs_camera.Text.{codes, strip, split, split_once, show, int_of, join}
use rs_camera.CpuList.{
  IsAscending, descending_range, empty_element, parse_cpu_list, format_cpu_list, set_add, add_range,
}
use rs_camera.CpuList.Sets.{contains}
use rs_camera.CpuList.Formats.{parse-format}
use rs_camera.CpuList.Members.{names_any, elements, is_wellformed, parse_members, parse-is_ok}

abbrev cpus : List ℕ
cpus = 0 ∷ 2 ∷ 3 ∷ 4 ∷ 9 ∷ []

parse_cpus : parse_cpu_list (codes " 2-4, 0,9,3 ") ≡ ok cpus
unfolding parse_cpu_list strip split split_once int_of set_add add_range
parse_cpus = refl

format_cpus : format_cpu_list cpus ≡ codes "0,2-4,9"
unfolding format_cpu_list show join
format_cpus = refl

parse_descending : parse_cpu_list (codes "1,5-3") ≡ err (descending_range (codes "5-3"))
unfolding parse_cpu_list strip split split_once int_of set_add
parse_descending = refl

parse_trailing : parse_cpu_list (codes "1,") ≡ err (empty_element (codes "1,"))
unfolding parse_cpu_list strip split split_once int_of set_add
parse_trailing = refl

parse-format_example : parse_cpu_list (format_cpu_list cpus) ≡ ok cpus
parse-format_example = parse-format cpus (ground arith)

parse_members_example :
    IsAscending cpus × ((n : ℕ) → contains n cpus ≡ names_any n (elements (codes " 2-4, 0,9,3 ")))
parse_members_example = parse_members (codes " 2-4, 0,9,3 ") cpus parse_cpus

-- The second element descends.
parse-is_ok_example :
    (is_empty (strip (codes "1,5-3")) ≡ true → parse_cpu_list (codes "1,5-3") ≡ ok [])
    × (is_ok (parse_cpu_list (codes "1,5-3"))
        ≡ all (λ token. is_wellformed (strip token)) (elements (codes "1,5-3")))
parse-is_ok_example = parse-is_ok (codes "1,5-3")
