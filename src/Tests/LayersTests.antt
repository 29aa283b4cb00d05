-- ===== src/Tests/LayersTests.antt =====
-- Of the three layers' parsers.
use pacsni.Prelude.{arith, Ensures, refl}
use pacsni.Layers.{parse_ethernet_layer, parse_ip_layer, parse_transport_layer}
use pacsni.Layers.Ethernet.{EthernetResult, parse_ethernet_layer_lem}
use pacsni.Layers.Ip.{IpResult, parse_ip_layer_lem}
use pacsni.Layers.Transport.{TransportResult, parse_transport_layer_lem}
use pacsni.Tests.Data.{frame, frame_ip}

parse_ethernet_layer_lem_example : Ensures (parse_ethernet_layer frame 62) (EthernetResult frame 62)
parse_ethernet_layer_lem_example = parse_ethernet_layer_lem frame 62 (omega arith) (omega arith)

parse_ip_layer_lem_example : Ensures (parse_ip_layer frame 62 18) (IpResult frame 62 18)
parse_ip_layer_lem_example =
    parse_ip_layer_lem frame 62 18 (omega arith) (omega arith) (omega arith)

parse_transport_layer_lem_example :
    Ensures (parse_transport_layer frame 62 18 frame_ip) (TransportResult frame 62 38 18 frame_ip)
parse_transport_layer_lem_example =
    parse_transport_layer_lem frame 62 18 18 frame_ip (omega arith) (omega arith) (omega arith) refl
      (omega arith)
