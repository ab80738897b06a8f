-- ===== src/Ports/Tests.antt =====
-- A derived class that names the wrapper's port again.
use behavior_tree_ros.Ports.{
  PortsList, bare_port, text_port, find_port, action_ports, insert_range, insert,
}
use behavior_tree_ros.Prelude.{◌∷◌, [], some, ◌≡◌, refl}

abbrev addition : PortsList
addition = ("action_name", bare_port "int") ∷ ("msec", bare_port "unsigned") ∷ []

own_port_stays :
    (find_port "action_name" (action_ports addition) ≡ some (text_port "" "Action server name"))
    × (find_port "msec" (action_ports addition) ≡ some (bare_port "unsigned"))
unfolding find_port action_ports insert_range insert
own_port_stays = (refl, refl)
