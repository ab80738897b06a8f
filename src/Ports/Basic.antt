-- ===== src/Ports/Basic.antt =====
-- Which port a name leads to, when a derived class adds ports of its own.
use behavior_tree_ros.Ports.{
  find_port, insert, insert_range, Port, action_ports, PortsList, service_ports, publisher_ports,
  subscriber_ports, has, text_port, placeholder,
}
use behavior_tree_ros.Prelude.{
  String, ◌≡◌, Option, if◌then◌else◌, str_eq, ◌∷◌, arith, some, [], eq_iff,
}

find_port-insert :
    (key : String) (entry : String × Port) (ports : PortsList)
    → find_port key (insert entry ports)
      ≡ (if has key ports then find_port key ports else find_port key (entry ∷ []))
unfolding find_port insert
find_port-insert key (k, p) ports = ground (arith, eq_iff k key)

find_port-insert_range :
    (key : String) (addition ports : PortsList)
    → find_port key (insert_range addition ports)
      ≡ (if has key ports then find_port key ports else find_port key addition)
unfolding find_port insert_range
find_port-insert_range key [] ports = ground arith
find_port-insert_range key ((k, p) ∷ rest) ports = ground (
  arith,
  eq_iff k key,
  find_port-insert key (k, p) ports,
  find_port-insert_range key rest (insert (k, p) ports),
)

-- What a name leads to, where the wrapper has one port of its own.
abbrev pub kept : String → Port → PortsList → String → Option Port
kept own port addition key = if str_eq own key then some port else find_port key addition

-- A derived class cannot replace the wrapper's own port: under every other name its own ports are
-- found, the first of a name that it gives twice, and under the wrapper's name the wrapper's port
-- with its default.
provided_ports_keep :
    (key : String) (addition : PortsList)
    → (find_port key (action_ports addition)
        ≡ kept "action_name" (text_port "" "Action server name") addition key)
      × (find_port key (service_ports addition)
          ≡ kept "service_name" (text_port "" "Service name") addition key)
      × (find_port key (publisher_ports addition)
          ≡ kept "topic_name" (text_port placeholder "Topic name") addition key)
      × (find_port key (subscriber_ports addition)
          ≡ kept "topic_name" (text_port placeholder "Topic name") addition key)
unfolding find_port action_ports service_ports publisher_ports subscriber_ports
provided_ports_keep key addition = (
  one "action_name" (text_port "" "Action server name"),
  one "service_name" (text_port "" "Service name"),
  one "topic_name" (text_port placeholder "Topic name"),
  one "topic_name" (text_port placeholder "Topic name"),
)
  where
    one :
        (own : String) (port : Port)
        → find_port key (insert_range addition ((own, port) ∷ [])) ≡ kept own port addition key
    one own port =
        ground (arith, eq_iff own key, find_port-insert_range key addition ((own, port) ∷ []))
