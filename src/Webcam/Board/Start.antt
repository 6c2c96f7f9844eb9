-- ===== src/Webcam/Board/Start.antt =====
-- The start of the board's connection: the header that arrives sets the sizes.
use Prim.Native.Nat.{min}
use reconos_v.Base.{ℕ, zero, suc, ◌+◌, ◌*◌, ◌/◌, ◌<◌, Option, some, List, ◌≡◌, refl, ◌∙◌, ap, true}
use reconos_v.Base.{arith, get_elem?}
use reconos_v.Webcam.Socket.{Event, IsClean, stream}
use reconos_v.Webcam.Tcp.{Takes}
use reconos_v.Webcam.Tcp.Send.{Progresses}
use reconos_v.Webcam.Ethernet.{framebuffer_start}
use reconos_v.Webcam.Header.{
  Order, big, ImageParams, IsParams, netimage_send_header, header_received,
}
use reconos_v.Webcam.Board.{params_size, Established, clear_loop, establish_connection}

get_elem?-clear_loop :
    (left i k : ℕ) → k < left → get_elem? (clear_loop left i) k ≡ some ((i + k) * 1024)
unfolding clear_loop
get_elem?-clear_loop zero i k h = absurd (omega arith)
get_elem?-clear_loop (suc left) i zero h = ap some (omega arith)
get_elem?-clear_loop (suc left) i (suc k) h =
    get_elem?-clear_loop left (i + 1) k (omega arith) ∙ ap some (omega arith)

-- When a header has been sent, and its bytes arrive at an accepted connection of a board that has the
-- highest byte first, `establish_connection` succeeds with the parameters of the image and its sizes, at
-- most 640 columns and 480 rows. It clears a word of each page from the frame buffer on, as many pages as
-- the frame and one more page have room for.
pub establish_connection_lem :
    (o : Order) (b block k : ℕ) (takes : Takes) (img : ImageParams) (events : List Event)
    {ret : Option ℕ} {wire : List ℕ}
    → 0 < b
    → Progresses takes
    → IsParams img
    → netimage_send_header o 17 b takes img ≡ some (ret, wire)
    → stream events ≡ wire
    → IsClean events
    → k < (params_size img + 4096) / 4096
    → (r : Established) × (establish_connection big 17 true events block ≡ some r)
      × (r.params ≡ img)
      × (r.size_x ≡ min img.width 640)
      × (r.size_y ≡ min img.height 480)
      × (get_elem? r.cleared k ≡ some (k * 1024))
unfolding establish_connection
establish_connection_lem o b block k takes img events pos progresses words sends arrives clean h =
    let (ret, received, same, twice) =
      header_received o big b takes img events pos progresses words sends arrives clean in
    let whole = received ∙ ap some same in
    (
      record {
        params = img;
        size_x = min img.width 640;
        size_y = min img.height 480;
        framebuffer = framebuffer_start block;
        cleared = clear_loop ((params_size img + 4096) / 4096) 0;
      },
      rw whole refl,
      refl,
      refl,
      refl,
      get_elem?-clear_loop ((params_size img + 4096) / 4096) 0 k h ∙ ap some (omega arith),
    )
