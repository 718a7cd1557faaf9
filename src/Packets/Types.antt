-- ===== src/Packets/Types.antt =====
-- The enumerations of include/Packets/BasePacket.h and the texts that name their members.
use Prim.Native.String.{String}
use traffic_inspector.Base.{ℕ, ltb, if◌then◌else◌, List, [], ◌∷◌, get_or}

-- `MAX_PACKET_TYPE` only counts the members.
pub data PacketType : Type 0 where
  eth ip udp tcp radius_udp control_event max_packet_type : PacketType

pub data ControlMessageId : Type 0 where
  processing sync_timeout shutdown max_control_message_id : ControlMessageId

-- `static_cast<int>`.
abbrev pub packet_type_index : PacketType → ℕ
packet_type_index eth = 0
packet_type_index ip = 1
packet_type_index udp = 2
packet_type_index tcp = 3
packet_type_index radius_udp = 4
packet_type_index control_event = 5
packet_type_index max_packet_type = 6

abbrev pub control_message_index : ControlMessageId → ℕ
control_message_index processing = 0
control_message_index sync_timeout = 1
control_message_index shutdown = 2
control_message_index max_control_message_id = 3

unfoldable pub packet_type_to_string : PacketType → String
packet_type_to_string t =
    let strings : List String =
      "ETH" ∷ "IP" ∷ "UDP" ∷ "TCP" ∷ "RADIUS_UDP" ∷ "CONTROL_EVENT" ∷ [] in
    if ltb (packet_type_index t) 6 then get_or strings (packet_type_index t) "" else "UNKNOWN"

unfoldable pub control_message_id_to_string : ControlMessageId → String
control_message_id_to_string t =
    let strings : List String = "PROCESSING" ∷ "SYNC_TIMEOUT" ∷ "SHUTDOWN" ∷ [] in
    if ltb (control_message_index t) 3
    then get_or strings (control_message_index t) ""
    else "UNKNOWN"
