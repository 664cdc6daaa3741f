-- ===== src/Quic/Route/Laws.antt =====
-- Which packets `quic_worker_index` routes, and to which worker, stated on the wire format.
use sfo_reuseport.Prelude.{
  ℕ, zero, suc, ◌+◌, ◌-◌, ◌*◌, ◌%◌, ◌≤◌, ◌<◌, ◌≡◌, ◌≢◌, ◌↔◌, refl, ne→==, le→ltb, le→leb, List, [],
  ◌∷◌, some, length, All, arith,
}
use mathlib.Core.Path.{subst}
use native.Mathlib.Decide.{dec_lt}
use sfo_reuseport.Prelude.Bits.{shift_bit_or, high_bit_short, high_bit_long}
use sfo_reuseport.Net.{IsByte}
use sfo_reuseport.Quic.Route.{quic_worker_index, quic_worker_index_prefix, quic_long_header_dcid}

-- The two bytes that name a worker, as a big-endian number.
abbrev pub pair : ℕ → ℕ → ℕ
pair hi lo = hi * 256 + lo

-- The wire formats of a packet that names worker `w` of `workers`: the destination connection id
-- begins at byte 1 of a short header; in a long header its length is byte 5, and it begins at byte 6.
pub data Names (workers w : ℕ) (packet : List ℕ) : Type 0 where
  short :
      (flags hi lo : ℕ) (rest : List ℕ)
      → packet ≡ flags ∷ hi ∷ lo ∷ rest
      → flags < 128
      → w ≡ pair hi lo % workers
      → Names workers w packet
  long :
      (flags v₁ v₂ v₃ v₄ dcid_len hi lo : ℕ) (rest : List ℕ)
      → packet ≡ flags ∷ v₁ ∷ v₂ ∷ v₃ ∷ v₄ ∷ dcid_len ∷ hi ∷ lo ∷ rest
      → 128 ≤ flags
      → 2 ≤ dcid_len
      → dcid_len ≤ 2 + length rest
      → w ≡ pair hi lo % workers
      → Names workers w packet

module _ (workers : ℕ) (pos : 0 < workers) where
  pub route_short :
      (flags hi lo : ℕ) (rest : List ℕ)
      → flags < 128
      → lo < 256
      → quic_worker_index (flags ∷ hi ∷ lo ∷ rest) workers ≡ some (pair hi lo % workers)
  unfolding quic_worker_index
  route_short flags hi lo rest low byte = rw (
    ne→== workers 0 (omega arith),
    high_bit_short flags low,
    le→leb 1 (length (flags ∷ hi ∷ lo ∷ rest)) (omega arith),
    shift_bit_or hi lo byte,
  )

  pub route_long :
      (flags v₁ v₂ v₃ v₄ dcid_len hi lo : ℕ) (rest : List ℕ)
      → 128 ≤ flags
      → flags < 256
      → 2 ≤ dcid_len
      → dcid_len ≤ 2 + length rest
      → lo < 256
      → quic_worker_index (flags ∷ v₁ ∷ v₂ ∷ v₃ ∷ v₄ ∷ dcid_len ∷ hi ∷ lo ∷ rest) workers
        ≡ some (pair hi lo % workers)
  unfolding quic_worker_index
  route_long flags v₁ v₂ v₃ v₄ zero hi lo rest high byte enough fits byte' = absurd (omega arith)
  route_long flags v₁ v₂ v₃ v₄ (suc zero) hi lo rest high byte enough fits byte' =
      absurd (omega arith)
  route_long flags v₁ v₂ v₃ v₄ (suc (suc n)) hi lo rest high byte enough fits byte' = rw (
    ne→== workers 0 (omega arith),
    high_bit_long flags high byte,
    ne→== (suc (suc n)) 0 (omega arith),
    le→ltb (length (flags ∷ v₁ ∷ v₂ ∷ v₃ ∷ v₄ ∷ suc (suc n) ∷ hi ∷ lo ∷ rest)) (6 + suc (suc n))
        (omega arith),
    cut,
    shift_bit_or hi lo byte',
  )
    where
      cut : 6 + suc (suc n) - 6 ≡ suc (suc n)
      cut = omega arith

  routes_nothing : {w : ℕ} → quic_worker_index [] workers ≢ some w
  unfolding quic_worker_index
  routes_nothing h = ground arith

  Names-short :
      (flags : ℕ) (packet : List ℕ) {w : ℕ}
      → flags < 128
      → All IsByte packet
      → quic_worker_index (flags ∷ packet) workers ≡ some w
      → Names workers w (flags ∷ packet)
  unfolding quic_worker_index
  Names-short flags [] low bytes h = absurd (ground (arith, high_bit_short flags low))
  Names-short flags (hi ∷ []) low bytes h = absurd (ground (arith, high_bit_short flags low))
  Names-short flags (hi ∷ lo ∷ rest) low bytes h =
      short flags hi lo rest refl low (ground (arith, high_bit_short flags low, shift_bit_or hi lo))

  Names-long :
      (flags : ℕ) (packet : List ℕ) {w : ℕ}
      → 128 ≤ flags
      → flags < 256
      → All IsByte packet
      → quic_worker_index (flags ∷ packet) workers ≡ some w
      → Names workers w (flags ∷ packet)
  unfolding quic_worker_index
  Names-long flags (v₁ ∷ v₂ ∷ v₃ ∷ v₄ ∷ zero ∷ hi ∷ lo ∷ rest) high byte bytes h =
      absurd (ground (arith, high_bit_long flags))
  Names-long flags (v₁ ∷ v₂ ∷ v₃ ∷ v₄ ∷ suc zero ∷ hi ∷ lo ∷ rest) high byte bytes h =
      absurd (ground (arith, high_bit_long flags))
  Names-long flags (v₁ ∷ v₂ ∷ v₃ ∷ v₄ ∷ suc (suc n) ∷ hi ∷ lo ∷ rest) high byte bytes h =
      elim (dec_lt (length rest) n) [
        | yes cut ↦ absurd (ground (arith, high_bit_long flags))
        | no fits ↦
            long flags v₁ v₂ v₃ v₄ (suc (suc n)) hi lo rest refl high (omega arith) (omega arith) (
              ground (
                arith,
                route_long flags v₁ v₂ v₃ v₄ (suc (suc n)) hi lo rest high byte (omega arith)
                    (omega arith) (omega arith),
              ))
      ]
  Names-long flags packet high byte bytes h = absurd (ground (arith, high_bit_long flags))

  -- With bytes for a packet and at least one worker, a packet is routed to `w` exactly when it
  -- has one of the two formats that name `w`.
  pub quic_worker_index_iff :
      (packet : List ℕ) (w : ℕ)
      → All IsByte packet
      → (quic_worker_index packet workers ≡ some w) ↔ Names workers w packet
  quic_worker_index_iff packet w bytes = (sound packet bytes, complete packet bytes)
    where
      sound : (p : List ℕ) → All IsByte p → quic_worker_index p workers ≡ some w → Names workers w p
      sound [] b h = absurd (routes_nothing h)
      sound (flags ∷ p) b h = elim (dec_lt flags 128) [
        | yes low ↦ Names-short flags p low b.1 h
        | no high ↦ Names-long flags p (omega arith) b.0 b.1 h
      ]

      complete :
          (p : List ℕ) → All IsByte p → Names workers w p → quic_worker_index p workers ≡ some w
      complete p b (short flags hi lo rest e low at) =
          let c = subst (All IsByte) e b in
          rw (e, at) (route_short flags hi lo rest low (omega arith))
      complete p b (long flags v₁ v₂ v₃ v₄ n hi lo rest e high enough fits at) =
          let c = subst (All IsByte) e b in
          rw (e, at)
            (route_long flags v₁ v₂ v₃ v₄ n hi lo rest high (omega arith) enough fits (omega arith))

-- A packet is never routed to a worker that does not exist.
pub quic_worker_index-lt :
    (packet : List ℕ) (workers w : ℕ) → quic_worker_index packet workers ≡ some w → w < workers
unfolding quic_worker_index quic_worker_index_prefix quic_long_header_dcid
quic_worker_index-lt packet workers w e = ground arith
