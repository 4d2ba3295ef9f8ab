-- ===== src/Prelude/Errors.antt =====
-- The Python exceptions that the tools raise or catch, with their messages.
use mathlib.Core.List.{List}
use Prim.Native.Nat.{ℕ}

pub data Error : Type 0 where
  value_error runtime_error os_error timeout_expired called_process_error index_error
        zero_division_error key_error :
      List ℕ → Error

abbrev pub message : Error → List ℕ
message (value_error m) = m
message (runtime_error m) = m
message (os_error m) = m
message (timeout_expired m) = m
message (called_process_error m) = m
message (index_error m) = m
message (zero_division_error m) = m
message (key_error m) = m
