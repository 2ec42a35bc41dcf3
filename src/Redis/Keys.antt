-- ===== src/Redis/Keys.antt =====
-- src/constants.ts, `QueueNames` and `RegistryKeys`: one constructor for each key factory that the
-- modelled code calls. The two spellings of a key (v1, v2) are not distinguished.
use by_framework_ts.Common.{
  ℕ, zero, suc, Text, text_eq, text_eq_iff, ◌≡◌, refl, ◌↔◌, Bool, true, ◌&&◌, ◌==◌, [], ◌∷◌, arith,
  ap,
}

pub data Key : Type 0 where
  ctrl_stream : Text → Key
  worker_ctrl_stream : Text → Key
  session_data_stream : Text → Key
  task_group : Text → Key
  task_group_results : Text → Key
  worker_online_lease : Text → Key
  session_registry : Text → Key
  wait_index : ℕ → Key
  wait_sweep_lock : ℕ → Key
  wait_consumed : Text → Text → Key
  wait_renew_origin : Text → Text → Key
  known_workers : Key
  worker_declared_agent_types : Text → Key
  agent_type_members : Text → Key
  worker_admin_state : Text → Key
  agent_type_denied : Text → Key
  control_plane_agent_circuit : Text → Key
  control_plane_agent_fallback : Text → Key
  control_plane_user_quota : Text → Key
  control_plane_wakeup_stream : Key
  control_plane_delivery_pending_stream : Key

record Parts : Type 0 where
  family : ℕ
  first : Text
  second : Text

abbrev parts : Key → Parts
parts (ctrl_stream a) = record { family = 0; first = a; second = [] }
parts (worker_ctrl_stream a) = record { family = 1; first = a; second = [] }
parts (session_data_stream a) = record { family = 2; first = a; second = [] }
parts (task_group a) = record { family = 3; first = a; second = [] }
parts (task_group_results a) = record { family = 4; first = a; second = [] }
parts (worker_online_lease a) = record { family = 5; first = a; second = [] }
parts (session_registry a) = record { family = 6; first = a; second = [] }
parts (wait_index n) = record { family = 7; first = n ∷ []; second = [] }
parts (wait_sweep_lock n) = record { family = 8; first = n ∷ []; second = [] }
parts (wait_consumed a b) = record { family = 9; first = a; second = b }
parts (wait_renew_origin a b) = record { family = 10; first = a; second = b }
parts known_workers = record { family = 11; first = []; second = [] }
parts (worker_declared_agent_types a) = record { family = 12; first = a; second = [] }
parts (agent_type_members a) = record { family = 13; first = a; second = [] }
parts (worker_admin_state a) = record { family = 14; first = a; second = [] }
parts (agent_type_denied a) = record { family = 15; first = a; second = [] }
parts (control_plane_agent_circuit a) = record { family = 16; first = a; second = [] }
parts (control_plane_agent_fallback a) = record { family = 17; first = a; second = [] }
parts (control_plane_user_quota a) = record { family = 18; first = a; second = [] }
parts control_plane_wakeup_stream = record { family = 19; first = []; second = [] }
parts control_plane_delivery_pending_stream = record { family = 20; first = []; second = [] }

abbrev shard_of : Text → ℕ
shard_of [] = 0
shard_of (n ∷ s) = n

-- The key of a family and its arguments, from the twelfth family on and from the first.
abbrev late_key_of_parts : ℕ → Text → Key
late_key_of_parts n a = elim n [
  | zero ↦ known_workers
  | suc zero ↦ worker_declared_agent_types a
  | suc (suc zero) ↦ agent_type_members a
  | suc (suc (suc zero)) ↦ worker_admin_state a
  | suc (suc (suc (suc zero))) ↦ agent_type_denied a
  | suc (suc (suc (suc (suc zero)))) ↦ control_plane_agent_circuit a
  | suc (suc (suc (suc (suc (suc zero))))) ↦ control_plane_agent_fallback a
  | suc (suc (suc (suc (suc (suc (suc zero)))))) ↦ control_plane_user_quota a
  | suc (suc (suc (suc (suc (suc (suc (suc zero))))))) ↦ control_plane_wakeup_stream
  | _ ↦ control_plane_delivery_pending_stream
]

abbrev key_of_parts : ℕ → Text → Text → Key
key_of_parts n a b = elim n [
  | zero ↦ ctrl_stream a
  | suc zero ↦ worker_ctrl_stream a
  | suc (suc zero) ↦ session_data_stream a
  | suc (suc (suc zero)) ↦ task_group a
  | suc (suc (suc (suc zero))) ↦ task_group_results a
  | suc (suc (suc (suc (suc zero)))) ↦ worker_online_lease a
  | suc (suc (suc (suc (suc (suc zero))))) ↦ session_registry a
  | suc (suc (suc (suc (suc (suc (suc zero)))))) ↦ wait_index (shard_of a)
  | suc (suc (suc (suc (suc (suc (suc (suc zero))))))) ↦ wait_sweep_lock (shard_of a)
  | suc (suc (suc (suc (suc (suc (suc (suc (suc zero)))))))) ↦ wait_consumed a b
  | suc (suc (suc (suc (suc (suc (suc (suc (suc (suc zero))))))))) ↦ wait_renew_origin a b
  | suc (suc (suc (suc (suc (suc (suc (suc (suc (suc (suc m)))))))))) ↦ late_key_of_parts m a
]

key_of_parts-parts : (k : Key) → key_of_parts (parts k).family (parts k).first (parts k).second ≡ k
key_of_parts-parts (ctrl_stream a) = refl
key_of_parts-parts (worker_ctrl_stream a) = refl
key_of_parts-parts (session_data_stream a) = refl
key_of_parts-parts (task_group a) = refl
key_of_parts-parts (task_group_results a) = refl
key_of_parts-parts (worker_online_lease a) = refl
key_of_parts-parts (session_registry a) = refl
key_of_parts-parts (wait_index n) = refl
key_of_parts-parts (wait_sweep_lock n) = refl
key_of_parts-parts (wait_consumed a b) = refl
key_of_parts-parts (wait_renew_origin a b) = refl
key_of_parts-parts known_workers = refl
key_of_parts-parts (worker_declared_agent_types a) = refl
key_of_parts-parts (agent_type_members a) = refl
key_of_parts-parts (worker_admin_state a) = refl
key_of_parts-parts (agent_type_denied a) = refl
key_of_parts-parts (control_plane_agent_circuit a) = refl
key_of_parts-parts (control_plane_agent_fallback a) = refl
key_of_parts-parts (control_plane_user_quota a) = refl
key_of_parts-parts control_plane_wakeup_stream = refl
key_of_parts-parts control_plane_delivery_pending_stream = refl

unfoldable pub key_eq : Key → Key → Bool
key_eq j k =
    ((parts j).family == (parts k).family)
    && text_eq (parts j).first (parts k).first
    && text_eq (parts j).second (parts k).second

pub key_eq_iff : (j k : Key) → (key_eq j k ≡ true) ↔ (j ≡ k)
unfolding key_eq
key_eq_iff j k = (
  λ h. ground (
    arith,
    key_of_parts-parts j,
    key_of_parts-parts k,
    text_eq_iff (parts j).first (parts k).first,
    text_eq_iff (parts j).second (parts k).second,
  ),
  λ h. ground (
    arith,
    ap parts h,
    text_eq_iff (parts j).first (parts k).first,
    text_eq_iff (parts j).second (parts k).second,
  ),
)
