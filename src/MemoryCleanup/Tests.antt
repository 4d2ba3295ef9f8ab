-- ===== src/MemoryCleanup/Tests.antt =====
-- An example of a cleanup.
use rs_camera.Prelude.{ℕ, true, ◌≡◌, refl, [], ◌∷◌}
use rs_camera.Prelude.Exec.{ok}
use rs_camera.Prelude.After.{After}
use rs_camera.Text.{Str, codes, str_eq, split_once, strip, lstrip, rstrip, int_of, int_from}
use rs_camera.Text.Words.{words, words_from, split_lines}
use rs_camera.Machine.Quiet.{quiet}
use rs_camera.Artifacts.Selected.{int_text}
use rs_camera.MemoryCleanup.Cleanup.{
  Cache, clean, drop_caches, write_record, run_command, drop_command, read_meminfo, parse_meminfo,
  add_line, set_value,
}
use rs_camera.MemoryCleanup.Recorded.{Ends, Raises, clean-Recorded}

abbrev text : Str
text = codes "MemAvailable:  7000 kB"

abbrev cache : Cache ℕ
cache = record {
  is_linux = true;
  geteuid = 0;
  has_command = λ name w. true;
  is_writable = λ path w. true;
  boottime_ns = λ w. w;
  save = λ path cleaning w. (ok tt, w);
}

cleaned : clean (quiet text) cache true (codes "record" ∷ []) 5 ≡ (ok tt, 5)
unfolding clean drop_caches write_record run_command drop_command read_meminfo parse_meminfo
    add_line set_value split_once words words_from split_lines int_text strip lstrip rstrip int_of
    int_from str_eq
cleaned = refl

clean-Recorded_example :
    After
      (Ends (quiet text) cache true (codes "record" ∷ []))
      (Raises (quiet text) cache true (codes "record" ∷ []))
      (clean (quiet text) cache true (codes "record" ∷ []) 5)
clean-Recorded_example = clean-Recorded (quiet text) cache true (codes "record" ∷ []) 5
