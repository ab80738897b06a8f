-- ===== src/Ros/Tests.antt =====
-- A concrete BehaviorTree.CPP and rclcpp, for the tests.
use behavior_tree_ros.Prelude.{
  Bool, true, if◌then◌else◌, false, ◌*◌, ◌≡◌, ◌↔◌, ◌⊎◌, arith, inl, inr, refl, str_eq,
}
use behavior_tree_ros.Ros.{NodeStatus, success, failure, running, idle, skipped, Api, IsDocumented}

abbrev pub is_status_completed : NodeStatus → Bool
is_status_completed success = true
is_status_completed failure = true
is_status_completed _ = false

abbrev pub api : Api
api = record {
  is_status_completed = is_status_completed;
  is_blackboard_pointer = λ name. str_eq name "{name}";
  to_str = λ s. if is_status_completed s then "completed" else "not completed";
  from_seconds = λ ms. ms * 1000000;
}

completed_statuses :
    (s : NodeStatus) → (is_status_completed s ≡ true) ↔ ((s ≡ success) ⊎ (s ≡ failure))
completed_statuses running = (λ h. cc, λ h. ground arith)
completed_statuses success = (λ h. inl refl, λ h. refl)
completed_statuses failure = (λ h. inr refl, λ h. refl)
completed_statuses idle = (λ h. cc, λ h. ground arith)
completed_statuses skipped = (λ h. cc, λ h. ground arith)

pub api-IsDocumented : IsDocumented api
api-IsDocumented = record { completed = completed_statuses }
