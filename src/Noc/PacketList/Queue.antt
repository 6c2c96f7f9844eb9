-- ===== src/Noc/PacketList/Queue.antt =====
-- The packet list is a queue of packets.
use reconos_v.Base.{
  ℕ, ◌≡◌, ◌≢◌, ◌⊎◌, inl, inr, refl, none, some, List, [], ◌∷◌, ◌++◌, map, arith, sym, ◌∙◌,
}
use mathlib.Core.Path.{subst}
use reconos_v.Machine.{update}
use reconos_v.Noc.PacketList.{PacketList, Heap, done, no_data, packet_list_add, packet_list_poll}
use reconos_v.Noc.PacketList.Chain.{Cell, Apart, Chain, Chain-update, Chain-Apart, Chain-link}

abbrev pub new_cell : ℕ → ℕ → Cell
new_cell a q = record { address = a; packet = q }

-- The cells are what the list leads to, and `last` is the last of them.
pub record IsQueue (l : PacketList) (h : Heap) (cs : List Cell) : Type 0 where
  pub chain : Chain h l.first cs
  pub tail :
      (cs ≡ [])
      ⊎ ((front : List Cell) × (a : ℕ) × (q : ℕ) × (cs ≡ front ++ (new_cell a q ∷ []))
          × (l.last ≡ a))

-- the packets in the list, oldest first
abbrev pub packets : List Cell → List ℕ
packets cs = map (λ c. c.packet) cs

add_empty :
    (l : PacketList) (h : Heap) (packet new : ℕ)
    → l.first ≡ 0
    → packet ≢ 0
    → new ≢ 0
    → let stored = update h new (some (record { packet = packet; next = 0 })) in
      (packet_list_add l packet new h ≡ some (done, record { first = new; last = new }, stored))
      × IsQueue (record { first = new; last = new }) stored (new_cell new packet ∷ [])
unfolding packet_list_add
add_empty l h packet new e np nn = (
  ground arith,
  record {
    chain = (refl, nn, tt, 0, ground arith, refl);
    tail = inr ([], new, packet, refl, refl);
  },
)

first_ne : (h : Heap) (p : ℕ) (front : List Cell) (d : Cell) → Chain h p (front ++ (d ∷ [])) → p ≢ 0
first_ne h p [] d (at, pos, alone, next, here, rest) = λ e. pos (sym at ∙ e)
first_ne h p (c ∷ front) d (at, pos, alone, next, here, rest) = λ e. pos (sym at ∙ e)

last_here :
    (h : Heap) (p : ℕ) (front : List Cell) (d : Cell)
    → Chain h p (front ++ (d ∷ []))
    → h d.address ≡ some (record { packet = d.packet; next = 0 })
last_here h p [] d (at, pos, alone, next, here, rest) = ground arith
last_here h p (c ∷ front) d (at, pos, alone, next, here, rest) = last_here h next front d rest

add_more :
    (l : PacketList) (h : Heap) (packet new a q : ℕ) (front : List Cell)
    → Chain h l.first (front ++ (new_cell a q ∷ []))
    → l.last ≡ a
    → packet ≢ 0
    → new ≢ 0
    → h new ≡ none
    → (u : PacketList) × (k : Heap) × (packet_list_add l packet new h ≡ some (done, u, k))
      × IsQueue u k ((front ++ (new_cell a q ∷ [])) ++ (new_cell new packet ∷ []))
unfolding packet_list_add
add_more l h packet new a q front chain last np nn free =
    let cs = front ++ (new_cell a q ∷ []) in
    let stored = update h new (some (record { packet = packet; next = 0 })) in
    let alone : Apart new cs = Chain-Apart h new l.first cs free chain in
    let chain' : Chain stored l.first cs = Chain-update h new l.first _ cs alone chain in
    let end : stored a ≡ some (record { packet = q; next = 0 }) =
      last_here stored l.first front (new_cell a q) chain' in
    let ne = first_ne h l.first front (new_cell a q) chain in
    (
      record l { last = new },
      update stored a (some (record { packet = q; next = new })),
      ground (arith, end),
      record {
        chain = Chain-link stored l.first a new packet q front chain' (ground arith) nn alone;
        tail = inr (cs, new, packet, refl, refl);
      },
    )

-- To a list that is a queue of cells, adding a packet with a fresh element succeeds, and the list is
-- the queue of the same packets and the new one behind them.
pub packet_list_add_lem :
    (l : PacketList) (h : Heap) (packet new : ℕ) (cs : List Cell)
    → IsQueue l h cs
    → packet ≢ 0
    → new ≢ 0
    → h new ≡ none
    → (u : PacketList) × (k : Heap) × (packet_list_add l packet new h ≡ some (done, u, k))
      × IsQueue u k (cs ++ (new_cell new packet ∷ []))
packet_list_add_lem l h packet new cs i np nn free = elim i.tail [
  | inl e ↦
      let zero_first : l.first ≡ 0 = subst (λ k. Chain h l.first k) e i.chain in
      let (run, q) = add_empty l h packet new zero_first np nn in
      let u : PacketList = record { first = new; last = new } in
      let k' : Heap = update h new (some (record { packet = packet; next = 0 })) in
      (u, k', run, subst (λ k. IsQueue u k' (k ++ (new_cell new packet ∷ []))) (sym e) q)
  | inr (front, a, q, e, last) ↦
      let chain = subst (λ k. Chain h l.first k) e i.chain in
      let (u, k, run, r) = add_more l h packet new a q front chain last np nn free in
      (u, k, run, subst (λ k'. IsQueue u k (k' ++ (new_cell new packet ∷ []))) (sym e) r)
]

-- what is left of the description of the tail when the first cell goes
tail_rest :
    (c : Cell) (cs front : List Cell) (a q last : ℕ)
    → c ∷ cs ≡ front ++ (new_cell a q ∷ [])
    → last ≡ a
    → (cs ≡ [])
      ⊎ ((f : List Cell) × (b : ℕ) × (x : ℕ) × (cs ≡ f ++ (new_cell b x ∷ [])) × (last ≡ b))
tail_rest c cs [] a q last e at = inl (ground (arith, e))
tail_rest c cs (d ∷ front) a q last e at = inr (front, a, q, ground (arith, e), at)

-- Polling a queue that is not empty takes its oldest packet; its element is freed and the list is
-- the queue of the others.
pub packet_list_poll_lem :
    (l : PacketList) (h : Heap) (c : Cell) (cs : List Cell)
    → IsQueue l h (c ∷ cs)
    → (u : PacketList) × (k : Heap) × (packet_list_poll l h ≡ some (done, c.packet, u, k))
      × IsQueue u k cs
      × (k c.address ≡ none)
unfolding packet_list_poll
packet_list_poll_lem l h c cs i =
    let (at, pos, alone, next, here, rest) = i.chain in
    (
      record l { first = next },
      update h c.address none,
      ground (arith, at, pos, here),
      record {
        chain = Chain-update h c.address next none cs alone rest;
        tail = elim i.tail [
          | inl e ↦ absurd (ground (arith, e))
          | inr (front, a, q, e, last) ↦ tail_rest c cs front a q l.last e last
        ];
      },
      ground arith,
    )

-- Polling an empty queue gives -ENODATA and changes nothing.
pub packet_list_poll-empty :
    (l : PacketList) (h : Heap) → IsQueue l h [] → packet_list_poll l h ≡ some (no_data, 0, l, h)
unfolding packet_list_poll
packet_list_poll-empty l h i = ground (arith, i.chain)
