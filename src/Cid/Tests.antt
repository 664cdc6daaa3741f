-- ===== src/Cid/Tests.antt =====
-- Runs of the connection id generator, and its theorems at concrete inputs.
use sfo_reuseport.Prelude.{
  false, ℕ, ◌≡◌, refl, ◌⊎◌, List, [], ◌∷◌, length, replicate, length-replicate, All, arith, zero,
  suc,
}
use sfo_reuseport.Error.{Message, Result, ok, err, is_ok}
use sfo_reuseport.Net.{IsByte}
use sfo_reuseport.Cid.{QuicCidGenerator, new, with_cid_len, generate}
use sfo_reuseport.Cid.Laws.{IsValid, FillsBuffer, random_failed, IsCid, generate_total}

-- A random source that writes sevens.
abbrev pub sevens : List ℕ → Result Message (List ℕ)
sevens b = ok (replicate (length b) 7)

sevens_bytes : (n : ℕ) → All IsByte (replicate n 7)
sevens_bytes zero = tt
sevens_bytes (suc n) = (omega arith, sevens_bytes n)

pub sevens-FillsBuffer : FillsBuffer sevens
sevens-FillsBuffer = record {
  same_length =
      λ b c h. let e : replicate (length b) 7 ≡ c = cc in rw (← e) (length-replicate (length b) 7);
  bytes = λ b c h. let e : replicate (length b) 7 ≡ c = cc in rw (← e) (sevens_bytes (length b));
}

abbrev pub worker_three : QuicCidGenerator
worker_three = record { worker_index = 0x0103; cid_len = 8 }

pub worker_three-IsValid : IsValid worker_three
worker_three-IsValid = record { index = omega arith; shortest = omega arith; longest = omega arith }

pub generate_run : generate sevens worker_three ≡ ok (1 ∷ 3 ∷ 7 ∷ 7 ∷ 7 ∷ 7 ∷ 7 ∷ 7 ∷ [])
unfolding generate
generate_run = refl

new_rejects : is_ok (new 0x10000) ≡ false
unfolding new
new_rejects = refl

cid_len_rejects : is_ok (with_cid_len worker_three 21) ≡ false
unfolding with_cid_len
cid_len_rejects = refl

new_run : new 0x0103 ≡ ok worker_three
unfolding new
new_run = refl

with_cid_len_run :
    with_cid_len worker_three 20 ≡ ok (record { worker_index = 0x0103; cid_len = 20 })
unfolding with_cid_len
with_cid_len_run = refl

generate_total_example :
    ((cid : List ℕ) × (generate sevens worker_three ≡ ok cid) × IsCid worker_three cid)
    ⊎ ((e : Message) × (sevens (replicate 8 0) ≡ err e)
        × (generate sevens worker_three ≡ err (random_failed e)))
generate_total_example = generate_total sevens worker_three worker_three-IsValid sevens-FillsBuffer
