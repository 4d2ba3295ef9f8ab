-- ===== src/DeadlineProfile/Tests.antt =====
-- Examples of the profile.
use rs_camera.Prelude.{ℕ, ◌*◌, ◌+◌, ◌/◌, ◌≡◌, refl, true, false, some, List, [], ◌∷◌, All, arith}
use rs_camera.Prelude.Exec.{ok}
use rs_camera.Text.{codes, str_eq}
use rs_camera.Text.Words.{sorted, distinct_texts}
use rs_camera.DeadlineProfile.Profile.{
  Observation, Threads, Profile, Settings, generate_profile, check_runs, same_threads, roles_of,
  role_of, role_observations, observations_of, find_thread, max_execution, min_period, rows_of,
  excluded_of, insert_number, instances_of, sorted_signatures,
}
use rs_camera.DeadlineProfile.Coverage.{IsReserved, generate_profile-IsReserved}

-- A margin of 6/5 and a scale of 9/10.
abbrev settings : Settings
settings = record {
  margin_below_one = false;
  scale_valid = true;
  with_margin = λ n. (n * 6 + 4) / 5;
  scaled = λ n. n * 9 / 10;
  minimum_runtime_us = 5;
  maximum_period_us = 40;
  maximum_modeled_period_us = some 60;
}

abbrev seen : ℕ → ℕ → Observation
seen period execution = record {
  name = codes "worker";
  period_ns = period;
  execution_ns = execution;
}

abbrev runs : List Threads
runs =
    (((codes "grab", 0), seen 33000 7000) ∷ ((codes "idle", 0), seen 90000 10) ∷ [])
    ∷ (((codes "idle", 0), seen 80000 20) ∷ ((codes "grab", 0), seen 32000 6000) ∷ [])
    ∷ []

abbrev profile : Profile
profile = (
  record {
    signature = codes "grab";
    instance_number = 0;
    name = codes "worker";
    runtime_ns = 8400;
    deadline_ns = 28800;
    period_ns = 28800;
  }
      ∷ [],
  record {
    signature = codes "idle";
    instance_number = 0;
    name = codes "worker";
    role_observed_execution_max_ns = 20;
    role_observed_logical_period_min_ns = 80000;
  }
      ∷ [],
)

generated : generate_profile settings runs ≡ ok profile
unfolding generate_profile check_runs same_threads roles_of role_of role_observations
    observations_of find_thread max_execution min_period rows_of excluded_of insert_number
    instances_of distinct_texts sorted_signatures sorted str_eq
generated = refl

generate_profile-IsReserved_example : All (IsReserved settings runs) profile.0
generate_profile-IsReserved_example =
    generate_profile-IsReserved settings runs profile (λ a b l. omega arith) (λ a b l. omega arith)
      generated
