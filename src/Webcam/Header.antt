-- ===== src/Webcam/Header.antt =====
-- The header of an image stream: demos/webcam/gui/src/netimage.c sends it and allocates an image from
-- it, and `recv_header` of demos/webcam/linux/ethernet.c reads it.
use reconos_v.Base.{ℕ, ◌+◌, ◌*◌, ◌/◌, ◌%◌, ◌^◌, ◌<◌, Option, none, some, List, [], ◌∷◌}
use reconos_v.Base.{◌++◌, ◌≡◌, refl, ◌∙◌, ap, sym, length, arith}
use reconos_v.Base.{if◌then◌else◌}
use reconos_v.Base.Maybe.{◌>>=◌}
use reconos_v.Webcam.Socket.{Event, IsClean, stream}
use reconos_v.Webcam.Tcp.{Takes, tcp_send, tcp_receive}
use reconos_v.Webcam.Tcp.Receive.{tcp_receive-Delivered}
use reconos_v.Webcam.Tcp.Send.{Progresses, tcp_send-all}
use reconos_v.Webcam.Ethernet.{tcp_read_2, tcp_read_2-Complete}
use mathlib.Core.Option.{some-injective}

-- The byte order of a machine
pub data Order : Type 0 where
  little : Order
  big : Order

-- A word's bytes from the highest to the lowest, and the word of four bytes in that order.
abbrev pub high_first : ℕ → List ℕ
high_first w = (w / 2 ^ 24 % 256) ∷ (w / 2 ^ 16 % 256) ∷ (w / 2 ^ 8 % 256) ∷ (w % 256) ∷ []

abbrev pub word : (a b c d : ℕ) → ℕ
word a b c d = a * 2 ^ 24 + b * 2 ^ 16 + c * 2 ^ 8 + d

abbrev pub swap_bytes : ℕ → ℕ
swap_bytes w = word (w % 256) (w / 2 ^ 8 % 256) (w / 2 ^ 16 % 256) (w / 2 ^ 24 % 256)

-- A word in memory, read and written, and the C library's `htonl`.
abbrev pub store_word : Order → ℕ → List ℕ
store_word big w = high_first w
store_word little w = (w % 256) ∷ (w / 2 ^ 8 % 256) ∷ (w / 2 ^ 16 % 256) ∷ (w / 2 ^ 24 % 256) ∷ []

abbrev pub load_word : Order → (a b c d : ℕ) → ℕ
load_word big a b c d = word a b c d
load_word little a b c d = word d c b a

abbrev pub htonl : Order → ℕ → ℕ
htonl big w = w
htonl little w = swap_bytes w

-- `image_params_t`, and the parts of an image that its header has.
pub record ImageParams : Type 0 where
  pub n_channels : ℕ
  pub depth : ℕ
  pub width : ℕ
  pub height : ℕ

abbrev pub IsWord : ℕ → Type 0
IsWord w = w < 2 ^ 32

abbrev pub IsParams : ImageParams → Type 0
IsParams p = IsWord p.n_channels × IsWord p.depth × IsWord p.width × IsWord p.height

-- The struct's bytes in memory.
abbrev pub params_bytes : Order → ImageParams → List ℕ
params_bytes o p =
    store_word o p.n_channels
    ++ (store_word o p.depth ++ (store_word o p.width ++ store_word o p.height))

unfoldable pub netimage_send_header :
    Order → (fuel blocksize : ℕ) → Takes → ImageParams → Option (Option ℕ × List ℕ)
netimage_send_header o fuel blocksize takes img =
    let p : ImageParams = record {
      n_channels = htonl o img.n_channels;
      depth = htonl o img.depth;
      width = htonl o img.width;
      height = htonl o img.height;
    } in
    tcp_send fuel blocksize takes (params_bytes o p) 16

-- The struct that sixteen bytes in memory are.
abbrev pub load_params : Order → List ℕ → Option ImageParams
load_params o (a ∷ b ∷ c ∷ d ∷ e ∷ f ∷ g ∷ h ∷ i ∷ j ∷ k ∷ l ∷ m ∷ n ∷ p ∷ q ∷ []) = some record {
  n_channels = load_word o a b c d;
  depth = load_word o e f g h;
  width = load_word o i j k l;
  height = load_word o m n p q;
}
load_params o bytes = none

-- `recv_header` of the receiver: 0 is `none`.
unfoldable pub recv_header : Order → (fuel : ℕ) → List Event → Option ImageParams
recv_header o fuel events = do
  r ← tcp_read_2 fuel events 16
  if r.ok then load_params o r.bytes else none

-- What `netimage_recv_header` returns, and the header that its bytes are.
unfoldable pub netimage_recv_header :
    Order → (fuel blocksize : ℕ) → List Event → Option (Option ℕ × Option ImageParams)
netimage_recv_header o fuel blocksize events = do
  r ← tcp_receive fuel blocksize events 16
  some (r.ret, load_params o r.buf)

-- What `netimage_CreateImageFromHeader` asks an image with.
unfoldable pub image_from_header : Order → ImageParams → ImageParams
image_from_header o params = record {
  n_channels = htonl o params.n_channels;
  depth = htonl o params.depth;
  width = htonl o params.width;
  height = htonl o params.height;
}

-- What `htonl` leaves has its bytes in memory from the highest to the lowest, on both kinds of machine.
htonl-bytes : (o : Order) (w : ℕ) → IsWord w → store_word o (htonl o w) ≡ high_first w
htonl-bytes big w h = refl
htonl-bytes little w h = lists (omega arith) (omega arith) (omega arith) (omega arith)
  where
    lists :
        {a b c d a' b' c' d' : ℕ}
        → a ≡ a'
        → b ≡ b'
        → c ≡ c'
        → d ≡ d'
        → Path (List ℕ) (a ∷ b ∷ c ∷ d ∷ []) (a' ∷ b' ∷ c' ∷ d' ∷ [])
    lists p q r s = λ i. p i ∷ q i ∷ r i ∷ s i ∷ []

-- Loaded back, the word is what `htonl` makes of it.
load-high_first :
    (o : Order) (w : ℕ)
    → IsWord w
    → load_word o (w / 2 ^ 24 % 256) (w / 2 ^ 16 % 256) (w / 2 ^ 8 % 256) (w % 256) ≡ htonl o w
load-high_first big w h = omega arith
load-high_first little w h = refl

htonl-htonl : (o : Order) (w : ℕ) → IsWord w → htonl o (htonl o w) ≡ w
htonl-htonl big w h = refl
htonl-htonl little w h = omega arith

-- The header on the wire: the four words, highest byte first.
abbrev pub wire_bytes : ImageParams → List ℕ
wire_bytes p = params_bytes big p

-- What `netimage_send_header` puts on the wire is the header's words, highest byte first.
pub header-wire :
    (o : Order) (b : ℕ) (takes : Takes) (img : ImageParams)
    → 0 < b
    → Progresses takes
    → IsParams img
    → netimage_send_header o 17 b takes img ≡ some (some 16, wire_bytes img)
unfolding netimage_send_header
header-wire o b takes img pos progresses (n, d, w, h) =
    ap (λ l. tcp_send 17 b takes l 16)
      (λ i.
        htonl-bytes o img.n_channels n i
        ++ (htonl-bytes o img.depth d i
            ++ (htonl-bytes o img.width w i ++ htonl-bytes o img.height h i)))
    ∙ tcp_send-all b pos progresses (wire_bytes img)

load-wire :
    (o : Order) (img : ImageParams)
    → IsParams img
    → load_params o (wire_bytes img) ≡ some (image_from_header o img)
unfolding image_from_header
load-wire o img (n, d, w, h) = λ i. some record {
  n_channels = load-high_first o img.n_channels n i;
  depth = load-high_first o img.depth d i;
  width = load-high_first o img.width w i;
  height = load-high_first o img.height h i;
}

twice :
    (o : Order) (img : ImageParams)
    → IsParams img
    → image_from_header o (image_from_header o img) ≡ img
unfolding image_from_header
twice o img (n, d, w, h) = λ i. record {
  n_channels = htonl-htonl o img.n_channels n i;
  depth = htonl-htonl o img.depth d i;
  width = htonl-htonl o img.width w i;
  height = htonl-htonl o img.height h i;
}

on_big : (img : ImageParams) → image_from_header big img ≡ img
unfolding image_from_header
on_big img = refl

-- When a header has been sent with `netimage_send_header` from a machine of either byte order, and
-- what is on the wire is the stream of a connection whose reads do not fail, `recv_header` succeeds,
-- and what it reads is the header with each word through `htonl` of the receiver. That is the header
-- itself on a machine that has the highest byte first, and what `netimage_CreateImageFromHeader` turns
-- into the header on both kinds.
pub header_received :
    (o o' : Order) (b : ℕ) (takes : Takes) (img : ImageParams) (events : List Event)
    {ret : Option ℕ} {wire : List ℕ}
    → 0 < b
    → Progresses takes
    → IsParams img
    → netimage_send_header o 17 b takes img ≡ some (ret, wire)
    → stream events ≡ wire
    → IsClean events
    → (ret ≡ some 16)
      × (recv_header o' 17 events ≡ some (image_from_header o' img))
      × (image_from_header big img ≡ img)
      × (image_from_header o' (image_from_header o' img) ≡ img)
unfolding recv_header
header_received o o' b takes img events pos progresses words sends arrives clean =
    let sent = some-injective _ _ (sym sends ∙ header-wire o b takes img pos progresses words) in
    let arrived : stream events ≡ wire_bytes img = arrives ∙ ap (λ p. p.1) sent in
    let (rest, reads, coming, clean_rest) =
      tcp_read_2-Complete events 16 clean (omega (arith, ap length arrived)) in
    (
      ap (λ p. p.0) sent,
      rw (reads, arrived) (load-wire o' img words),
      on_big img,
      twice o' img words,
    )

-- What `netimage_recv_header` reads of such a header is the same: it returns sixteen, the size of a
-- header, with the words that `recv_header` reads.
pub header_received_by_viewer :
    (o o' : Order) (b c : ℕ) (takes : Takes) (img : ImageParams) (events : List Event)
    {ret : Option ℕ} {wire : List ℕ}
    → 0 < b
    → 0 < c
    → Progresses takes
    → IsParams img
    → netimage_send_header o 17 b takes img ≡ some (ret, wire)
    → stream events ≡ wire
    → IsClean events
    → netimage_recv_header o' 17 c events ≡ some (some 16, some (image_from_header o' img))
unfolding netimage_recv_header
header_received_by_viewer o o' b c takes img events pos pos' progresses words sends arrives clean =
    let sent = some-injective _ _ (sym sends ∙ header-wire o b takes img pos progresses words) in
    let arrived : stream events ≡ wire_bytes img = arrives ∙ ap (λ p. p.1) sent in
    let d = tcp_receive-Delivered c pos' events 16 clean in
    rw (d.result, d.counted, d.filled, arrived, load-wire o' img words) refl
