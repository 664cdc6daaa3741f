-- ===== src/Cid/Laws.antt =====
-- What every generator satisfies, and what every generated connection id carries.
use sfo_reuseport.Prelude.{
  ℕ, ◌+◌, ◌*◌, ◌≤◌, ◌<◌, ◌≡◌, refl, List, [], ◌∷◌, length, All, length-replicate, replicate, arith,
  ◌/◌, ◌%◌, ◌⊎◌, inl, inr, ◌∙◌,
}
use sfo_reuseport.Error.{Error, runtime, Message, lit, Result, ok, err, ◌>>=◌, map_err}
use mathlib.Core.Path.{subst}
use sfo_reuseport.Net.{IsByte}
use sfo_reuseport.Cid.{
  QuicCidGenerator, min_cid_len, max_cid_len, max_worker_index, new, with_cid_len,
  encode_worker_index_prefix, generate_into, generate,
}

-- The range of the fields, which are private in the source.
pub record IsValid (g : QuicCidGenerator) : Type 0 where
  pub index : g.worker_index ≤ max_worker_index
  pub shortest : min_cid_len ≤ g.cid_len
  pub longest : g.cid_len ≤ max_cid_len

-- A generator that `new` returns is valid, for exactly the worker that was asked for.
pub new-IsValid : (w : ℕ) {g : QuicCidGenerator} → new w ≡ ok g → IsValid g × (g.worker_index ≡ w)
unfolding new
new-IsValid w h = ground arith

-- Changing the length of a valid generator, where it succeeds, gives a valid generator of that length
-- for the same worker.
pub with_cid_len-IsValid :
    (g : QuicCidGenerator) (n : ℕ) {g' : QuicCidGenerator}
    → IsValid g
    → with_cid_len g n ≡ ok g'
    → IsValid g' × (g'.worker_index ≡ g.worker_index) × (g'.cid_len ≡ n)
unfolding with_cid_len
with_cid_len-IsValid g n v h = ground arith

-- What `getrandom::fill` documents: it fills the whole buffer, with bytes, or fails.
pub record FillsBuffer (fill : List ℕ → Result Message (List ℕ)) : Type 0 where
  pub same_length : (b c : List ℕ) → fill b ≡ ok c → length c ≡ length b
  pub bytes : (b c : List ℕ) → fill b ≡ ok c → All IsByte c

-- The two bytes of a worker's index in front of the others.
abbrev pub Carries : ℕ → List ℕ → Type 0
Carries w cid =
    (hi : ℕ) × (lo : ℕ) × (rest : List ℕ) × (cid ≡ hi ∷ lo ∷ rest)
    × (hi * 256 + lo ≡ w)
    × (hi < 256)
    × (lo < 256)

encode-Carries :
    (w : ℕ) (b : List ℕ)
    → w ≤ max_worker_index
    → 2 ≤ length b
    → All IsByte b
    → (c : List ℕ) × (encode_worker_index_prefix w b ≡ ok c)
      × (length c ≡ length b)
      × All IsByte c
      × Carries w c
unfolding encode_worker_index_prefix
encode-Carries w [] h l a = absurd (omega arith)
encode-Carries w (x ∷ []) h l a = absurd (omega arith)
encode-Carries w (x ∷ y ∷ b) h l a = (
  w / 256 % 256 ∷ w % 256 ∷ b,
  ground arith,
  refl,
  (omega arith, (omega arith, a.1.1)),
  (w / 256 % 256, w % 256, b, refl, omega arith, omega arith, omega arith),
)

abbrev pub random_failed : Message → Error
random_failed e = runtime (lit "QUIC CID random generation failed: " ∷ e)

-- A connection id of a generator: its length, and the index that it carries.
pub record IsCid (g : QuicCidGenerator) (cid : List ℕ) : Type 0 where
  pub sized : length cid ≡ g.cid_len
  pub all_bytes : All IsByte cid
  pub carries : Carries g.worker_index cid

module _ (fill : List ℕ → Result Message (List ℕ)) where
  -- Past the two checks of lengths, which a valid generator meets.
  generate_into_step :
      (g : QuicCidGenerator) (b : List ℕ)
      → IsValid g
      → length b ≡ g.cid_len
      → generate_into fill g b
        ≡ (map_err random_failed (fill b) >>= encode_worker_index_prefix g.worker_index)
  unfolding generate_into
  generate_into_step g b v l =
      ground (arith, IsValid.index v, IsValid.shortest v, IsValid.longest v)

  -- With a random source that fills buffers with bytes, a valid generator returns a connection id of
  -- its length and worker; where the source fails, it returns that failure as a runtime error.
  pub generate_total :
      (g : QuicCidGenerator)
      → IsValid g
      → FillsBuffer fill
      → ((cid : List ℕ) × (generate fill g ≡ ok cid) × IsCid g cid)
        ⊎ ((e : Message) × (fill (replicate g.cid_len 0) ≡ err e)
            × (generate fill g ≡ err (random_failed e)))
  unfolding generate
  generate_total g v fills = go (fill buffer) refl
    where
      buffer : List ℕ
      buffer = replicate g.cid_len 0

      step :
          generate_into fill g buffer
          ≡ (map_err random_failed (fill buffer) >>= encode_worker_index_prefix g.worker_index)
      step = generate_into_step g buffer v (length-replicate g.cid_len 0)

      go :
          (r : Result Message (List ℕ))
          → fill buffer ≡ r
          → ((cid : List ℕ) × (generate_into fill g buffer ≡ ok cid) × IsCid g cid)
            ⊎ ((e : Message) × (fill buffer ≡ err e)
                × (generate_into fill g buffer ≡ err (random_failed e)))
      go (ok c) p =
          let same = fills.same_length buffer c p in
          let (cid, done, sized, all_bytes, carries) =
            encode-Carries g.worker_index c v.index
              (omega (arith, v.shortest, same, length-replicate {A = ℕ} g.cid_len 0))
              (fills.bytes buffer c p) in
          inl (
            cid,
            rw (step, p) done,
            record {
              sized = sized ∙ same ∙ length-replicate g.cid_len 0;
              all_bytes = all_bytes;
              carries = carries;
            },
          )
      go (err e) p = inr (e, p, rw (step, p))

  pub generate-IsCid :
      (g : QuicCidGenerator) {cid : List ℕ}
      → IsValid g
      → FillsBuffer fill
      → generate fill g ≡ ok cid
      → IsCid g cid
  generate-IsCid g {cid} v fills h = elim (generate_total g v fills) [
    | inl (c, p, q) ↦ subst (IsCid g) (cc) q
    | inr (e, p, q) ↦ absurd (cc)
  ]
