-- ===== src/Webcam/Stream.antt =====
-- The loop of `main` in demos/webcam/gui/src/webcam.c: a frame goes to the board and comes back
-- filtered. Its capture, resizing and display are OpenCV's.
pub mod Round
use reconos_v.Base.{ℕ, ◌+◌, ◌*◌, Option, none, some, List}
use reconos_v.Base.Maybe.{◌>>=◌}
use reconos_v.Webcam.Socket.{Event}
use reconos_v.Webcam.Tcp.{Takes, tcp_send, tcp_receive}
use reconos_v.Webcam.Channels.{convert_to_4_channels, convert_to_3_channels}

abbrev pub byte_stream_length : (width height channels : ℕ) → ℕ
byte_stream_length width height channels = width * height * (channels + 1)

-- The conversion and the send: what is on the wire.
unfoldable pub send_frame :
    (fuel blocksize : ℕ) → Takes → (frame3 : List ℕ) (width height : ℕ) → Option (List ℕ)
send_frame fuel blocksize takes frame3 width height = do
  byte_stream ← convert_to_4_channels frame3 width height
  (result, wire) ← tcp_send fuel blocksize takes byte_stream (byte_stream_length width height 3)
  some wire

-- The receive and the conversion: the frame that comes back.
unfoldable pub receive_frame :
    (fuel blocksize : ℕ) → List Event → (width height : ℕ) → Option (List ℕ)
receive_frame fuel blocksize events width height = do
  r ← tcp_receive fuel blocksize events (byte_stream_length width height 3)
  convert_to_3_channels r.buf width height
