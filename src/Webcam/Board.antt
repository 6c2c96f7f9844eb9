-- ===== src/Webcam/Board.antt =====
-- demos/webcam/linux/ethernet.c and webcam_demo.c: the start of a connection, and a whole turn of the
-- ethernet thread. The frame buffer is its words; a word's bytes in memory depend on the machine.
pub mod Filtered
pub mod Start
use Prim.Native.Nat.{min}
use reconos_v.Base.{ℕ, zero, suc, ◌+◌, ◌*◌, ◌/◌, ◌≤◌, ◌<◌, Bool, true, false, Option, none, some}
use reconos_v.Base.{List, [], ◌∷◌, ◌++◌, ◌≡◌, refl, ◌∙◌, ap, length, arith, if◌then◌else◌}
use reconos_v.Base.Maybe.{◌>>=◌}
use reconos_v.Webcam.Socket.{Event, store}
use reconos_v.Webcam.Tcp.{Takes}
use reconos_v.Webcam.Ethernet.{tcp_read_2, tcp_write_2, frame_size, framebuffer_start}
use reconos_v.Webcam.Header.{Order, ImageParams, store_word, load_word, recv_header}
use reconos_v.Webcam.Pipeline.{Demo, frame_turn}

-- Words of a buffer and its bytes. `none` is a buffer that ends within a word.
abbrev pub store_words : Order → List ℕ → List ℕ
store_words o [] = []
store_words o (w ∷ ws) = store_word o w ++ store_words o ws

abbrev pub load_words : Order → List ℕ → Option (List ℕ)
load_words o [] = some []
load_words o (a ∷ b ∷ c ∷ d ∷ bytes) = do ws ← load_words o bytes; some (load_word o a b c d ∷ ws)
load_words o bytes = none

-- `sizeof` a frame of `p`
abbrev pub params_size : ImageParams → ℕ
params_size p = frame_size p.width p.height p.depth p.n_channels

-- The frame buffer and what is still to come. A failed read leaves what it has stored.
unfoldable pub read_frame :
    Order → (fuel : ℕ) → ImageParams → List Event → (frame : List ℕ) → Option (List ℕ × List Event)
read_frame o fuel p events frame = do
  r ← tcp_read_2 fuel events (params_size p)
  words ← load_words o (store 0 r.bytes (store_words o frame))
  some (words, r.events)

-- What it puts on the wire
unfoldable pub write_frame :
    Order → (fuel : ℕ) → Takes → ImageParams → (frame : List ℕ) → Option (List ℕ)
write_frame o fuel takes p frame = do
  (ok, wire) ← tcp_write_2 fuel takes (store_words o frame) (params_size p)
  some wire

-- A turn of `ethernet_function`, with the turns of the filter threads that it waits for: each thread
-- blocks on its box until the one before it has put, so that their order is fixed. These are the filter
-- threads in software; `main` starts threads in hardware in their place.
pub record Turn : Type 0 where
  pub demo : Demo
  pub wire : List ℕ
  pub events : List Event

unfoldable pub ethernet_function :
    Order → (fuel : ℕ) → Takes → ImageParams → (buf2 : List ℕ) → List Event → Demo → Option Turn
ethernet_function o fuel takes p buf2 events s = do
  (words, rest) ← read_frame o fuel p events s.frame
  s' ← frame_turn buf2 (record s { frame = words })
  wire ← write_frame o fuel takes p s'.frame
  some record { demo = s'; wire = wire; events = rest }

abbrev pub max_size_x : ℕ
max_size_x = 640

abbrev pub max_size_y : ℕ
max_size_y = 480

-- What `establish_connection` sets, with the words of the frame buffer that it clears.
pub record Established : Type 0 where
  pub params : ImageParams
  pub size_x : ℕ
  pub size_y : ℕ
  pub framebuffer : ℕ
  pub cleared : List ℕ

-- The loop that clears the first word of each page, `left` pages from its end.
unfoldable pub clear_loop : (left i : ℕ) → List ℕ
clear_loop zero i = []
clear_loop (suc left) i = (i * 1024) ∷ clear_loop left (i + 1)

-- `accepted` is whether `accept_connection` succeeds, and `block` what `malloc` returns; `none` is 1.
unfoldable pub establish_connection :
    Order → (fuel : ℕ) (accepted : Bool) → List Event → (block : ℕ) → Option Established
establish_connection o fuel accepted events block = if accepted then connected else none
  where
    connected : Option Established
    connected = do
      params ← recv_header o fuel events
      some record {
        params = params;
        size_x = min params.width max_size_x;
        size_y = min params.height max_size_y;
        framebuffer = framebuffer_start block;
        cleared = clear_loop ((params_size params + 4096) / 4096) 0;
      }
