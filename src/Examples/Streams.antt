-- ===== src/Examples/Streams.antt =====
-- The connections of the webcam demo on concrete streams.
use reconos_v.Base.{ℕ, ◌^◌, ◌<◌, ◌≡◌, refl, Option, none, some, List, [], ◌∷◌, arith}
use reconos_v.Base.{true, false}
use reconos_v.Webcam.Socket.{Event, arrives}
use reconos_v.Webcam.Tcp.{Received, Takes, tcp_receive}
use reconos_v.Webcam.Tcp.Send.{Progresses, tcp_send-all, sent_is_received}
use reconos_v.Webcam.Ethernet.{tcp_read_2, tcp_read_2-starves}
use reconos_v.Webcam.Header.{
  little, big, ImageParams, recv_header, image_from_header, header_received, header-wire,
}
use reconos_v.Webcam.Connection.{Calls, Resources}
use reconos_v.Webcam.Arguments.{source_none, Options}

-- Five bytes in two pieces
abbrev five : List Event
five = arrives 1 (2 ∷ 3 ∷ []) ∷ arrives 4 (5 ∷ []) ∷ []

-- Every write takes two bytes.
abbrev pub two_bytes : Takes
two_bytes call = some 2

pub two_bytes-Progresses : Progresses two_bytes
two_bytes-Progresses call = (1, refl)

abbrev bytes : List ℕ
bytes = 1 ∷ 2 ∷ 3 ∷ 4 ∷ 5 ∷ []

sent_example :
    (out : Received) × (tcp_receive 6 3 five 5 ≡ some out) × (out.ret ≡ some 5) × (out.buf ≡ bytes)
sent_example =
    sent_is_received 4 (omega arith) {takes = two_bytes} two_bytes-Progresses 3 bytes five
      (omega arith) (tcp_send-all 4 (omega arith) {takes = two_bytes} two_bytes-Progresses bytes)
      refl tt

starves_example : tcp_read_2 100 five 6 ≡ none
starves_example = tcp_read_2-starves 100 6 five tt (omega arith)

-- A header of 640 columns and 480 rows
abbrev pub vga : ImageParams
vga = record { n_channels = 3; depth = 8; width = 640; height = 480 }

-- Its bytes, in two pieces
abbrev pub header : List Event
header =
    arrives 0 (0 ∷ 0 ∷ 3 ∷ 0 ∷ 0 ∷ 0 ∷ 8 ∷ 0 ∷ []) ∷ arrives 0 (2 ∷ 128 ∷ 0 ∷ 0 ∷ 1 ∷ 224 ∷ []) ∷ []

abbrev header_bytes : Option ℕ
header_bytes = some 16

header_example :
    (header_bytes ≡ some 16)
    × (recv_header little 17 header ≡ some (image_from_header little vga))
    × (image_from_header big vga ≡ vga)
    × (image_from_header little (image_from_header little vga) ≡ vga)
header_example =
    let words : (3 < 2 ^ 32) × (8 < 2 ^ 32) × (640 < 2 ^ 32) × (480 < 2 ^ 32) =
      (omega arith, omega arith, omega arith, omega arith) in
    header_received little little 4 two_bytes vga header (omega arith) two_bytes-Progresses words
      (header-wire little 4 two_bytes vga (omega arith) two_bytes-Progresses words) refl tt

-- The connection is refused.
abbrev refused : Calls
refused = record {
  malloc_ok = true;
  socket_ok = true;
  bind_ok = false;
  accept_ok = true;
  host_found = true;
  connect_ok = false;
}

abbrev at_start : Resources
at_start = record { sockets = 3; blocks = 0 }

-- The options as they are before the words are read
abbrev defaults : Options ℕ
defaults = record {
  quiet = false;
  output = false;
  outfilename = [];
  fourcc = [];
  fps = 25;
  port = 6666;
  max_frames = 0;
  source = source_none;
  infilename = [];
  camera = 0;
  ethernet_support = true;
  host = [];
}
