-- ===== src/Noc/PacketList/Chain.antt =====
-- Chains of elements on the heap.
use reconos_v.Base.{ℕ, ◌≡◌, ◌≢◌, refl, Option, none, some, List, [], ◌∷◌, ◌++◌, arith}
use reconos_v.Machine.{update}
use reconos_v.Noc.PacketList.{Element, Heap}

-- an element's address and its packet
pub record Cell : Type 0 where
  pub address : ℕ
  pub packet : ℕ

-- No cell of the list is at `a`.
abbrev pub Apart : ℕ → List Cell → Type 0
Apart a [] = Unit
Apart a (c ∷ cs) = (a ≢ c.address) × Apart a cs

-- From `p` on, the cells are linked in order and end with a null pointer; no two are the same.
abbrev pub Chain : Heap → ℕ → List Cell → Type 0
Chain h p [] = p ≡ 0
Chain h p (c ∷ cs) =
    (p ≡ c.address)
    × (c.address ≢ 0)
    × Apart c.address cs
    × (next : ℕ) × (h c.address ≡ some (record { packet = c.packet; next = next }))
    × Chain h next cs

-- A write to another address keeps a chain.
pub Chain-update :
    (h : Heap) (a p : ℕ) (e : Option Element) (cs : List Cell)
    → Apart a cs
    → Chain h p cs
    → Chain (update h a e) p cs
Chain-update h a p e [] apart chain = chain
Chain-update h a p e (c ∷ cs) (ne, apart) (at, pos, alone, next, here, rest) =
    (at, pos, alone, next, ground arith, Chain-update h a next e cs apart rest)

-- An address without an element is apart from every chain.
pub Chain-Apart : (h : Heap) (b p : ℕ) (cs : List Cell) → h b ≡ none → Chain h p cs → Apart b cs
Chain-Apart h b p [] free chain = tt
Chain-Apart h b p (c ∷ cs) free (at, pos, alone, next, here, rest) =
    (ground arith, Chain-Apart h b next cs free rest)

Apart-append :
    (a : ℕ) (cs : List Cell) (d : Cell) → Apart a cs → a ≢ d.address → Apart a (cs ++ (d ∷ []))
Apart-append a [] d apart ne = (ne, tt)
Apart-append a (c ∷ cs) d (n, apart) ne = (n, Apart-append a cs d apart ne)

Apart-last : (a : ℕ) (cs : List Cell) (d : Cell) → Apart a (cs ++ (d ∷ [])) → a ≢ d.address
Apart-last a [] d (ne, apart) = ne
Apart-last a (c ∷ cs) d (ne, apart) = Apart-last a cs d apart

-- The last cell, at `a`, is linked to a new one at `b`.
pub Chain-link :
    (h : Heap) (p a b packet : ℕ) (q : ℕ) (cs : List Cell)
    → Chain h p (cs ++ (record { address = a; packet = q } ∷ []))
    → h b ≡ some (record { packet = packet; next = 0 })
    → b ≢ 0
    → Apart b (cs ++ (record { address = a; packet = q } ∷ []))
    → Chain (update h a (some (record { packet = q; next = b }))) p (
        (cs ++ (record { address = a; packet = q } ∷ []))
        ++ (record { address = b; packet = packet } ∷ []))
Chain-link h p a b packet q [] (at, pos, alone, next, here, rest) new nb (ne, apart) =
    (at, pos, (ground arith, tt), b, ground arith, (refl, nb, tt, 0, ground arith, refl))
Chain-link h p a b packet q (c ∷ cs) (at, pos, alone, next, here, rest) new nb (ne, apart) = (
  at,
  pos,
  Apart-append c.address (cs ++ (record { address = a; packet = q } ∷ []))
      (record { address = b; packet = packet }) alone (λ e. ground arith),
  next,
  (let ne2 = Apart-last c.address cs _ alone in ground arith),
  Chain-link h next a b packet q cs rest new nb apart,
)
