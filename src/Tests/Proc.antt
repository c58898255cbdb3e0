-- ===== src/Tests/Proc.antt =====
-- Files under /proc that are read, at concrete inputs.
use process_snapshot.Prelude.{◌≡◌, refl, [], ◌∷◌, codes}
use process_snapshot.Snapshot.{LinuxProcessState, char_to_linux_state}
use process_snapshot.Proc.{get_environment, get_process_state}
use process_snapshot.Proc.Laws.{terminated, get_environment-terminated, get_process_state_lem}

get_environment-terminated_example :
    get_environment (terminated (codes "A=1" ∷ codes "B=" ∷ [])) ≡ codes "A=1" ∷ codes "B=" ∷ []
get_environment-terminated_example = get_environment-terminated (codes "A=1" ∷ codes "B=" ∷ []) (
  record { filled = refl; plain = (refl, (refl, (refl, tt))) },
  (record { filled = refl; plain = (refl, (refl, tt)) }, tt),
)

get_process_state_lem_example :
    get_process_state (codes "7 (a) b) S 1") ≡ LinuxProcessState.sleeping
unfolding char_to_linux_state
get_process_state_lem_example =
    get_process_state_lem (codes "7 (a) b") b' ' b'S' (codes " 1")
      (refl, (refl, (refl, (refl, tt))))
