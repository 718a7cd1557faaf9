-- ===== src/Dispatcher/Texts.antt =====
-- `to_string` of include/Dispatcher/IDispatcher.hpp. The list of texts that it collects is
-- concatenated.
use traffic_inspector.Base.{◌++◌, Text, codes}
use traffic_inspector.Packets.Types.{packet_type_to_string}
use traffic_inspector.Dispatcher.{Dispatcher, leaf, node, Dispatchers, last, more}

module _ {L : Type 0} (to_string_impl : L → Text) where
  unfoldable mutual
    pub to_string : Dispatcher L → Text
    to_string (leaf l) = to_string_impl l
    to_string (node t xs) =
        codes (packet_type_to_string t)
        ++ (codes ", Dispatchers {" ++ (all_to_string xs ++ codes "}"))

    -- `( x.to_string() + ", ")...` over the tuple.
    pub all_to_string : Dispatchers L → Text
    all_to_string (last x) = to_string x ++ codes ", "
    all_to_string (more x xs) = (to_string x ++ codes ", ") ++ all_to_string xs
