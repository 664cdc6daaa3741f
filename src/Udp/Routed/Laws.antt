-- ===== src/Udp/Routed/Laws.antt =====
-- Scattering a datagram over buffers is copying it into the buffers laid end to end.
use sfo_reuseport.Prelude.{
  ℕ, zero, suc, ◌+◌, ◌-◌, ◌≤◌, ◌≡◌, refl, sym, ap, ◌∙◌, min, le→leb, gt→leb, List, [], ◌∷◌, ◌++◌,
  length, take, drop, length-drop, arith,
}
use native.Mathlib.Decide.{dec_le}
use sfo_reuseport.Udp.Routed.{
  RoutedPacket, copy_from_slice, receive_into, scatter_from, scatter_datagram, receive_vectored,
}

-- The buffer after as much of the source as fits has been written over its beginning.
abbrev pub overwrite : List ℕ → List ℕ → List ℕ
overwrite [] buffer = buffer
overwrite (x ∷ xs) [] = []
overwrite (x ∷ xs) (b ∷ bs) = x ∷ overwrite xs bs

abbrev pub concat : List (List ℕ) → List ℕ
concat [] = []
concat (b ∷ bs) = b ++ concat bs

drop-all : (n : ℕ) (xs : List ℕ) → length xs ≤ n → drop n xs ≡ []
drop-all zero [] h = refl
drop-all zero (x ∷ xs) h = absurd (omega (arith, h))
drop-all (suc n) [] h = refl
drop-all (suc n) (x ∷ xs) h = drop-all n xs (omega (arith, h))

drop-nil : (n : ℕ) → drop {A = ℕ} n [] ≡ []
drop-nil zero = refl
drop-nil (suc n) = refl

drop-drop : (m n : ℕ) (xs : List ℕ) → drop n (drop m xs) ≡ drop (m + n) xs
drop-drop zero n xs = ap (λ k. drop k xs) (omega arith)
drop-drop (suc m) n [] = drop-nil n ∙ sym (drop-nil (suc m + n))
drop-drop (suc m) n (x ∷ xs) =
    drop-drop m n xs
    ∙ ap (λ k. drop k (x ∷ xs)) (let e : suc (m + n) ≡ suc m + n = omega arith in e)

take-append : (n : ℕ) (xs : List ℕ) → n ≤ length xs → take n (take n xs ++ []) ≡ take n xs
take-append zero xs h = refl
take-append (suc n) [] h = absurd (omega (arith, h))
take-append (suc n) (x ∷ xs) h = ap (λ l. x ∷ l) (take-append n xs (omega (arith, h)))

take-copy : (n : ℕ) (xs b : List ℕ) → n ≤ length xs → take n (copy_from_slice n xs b) ≡ take n xs
take-copy zero xs b h = refl
take-copy (suc n) [] b h = absurd (omega (arith, h))
take-copy (suc n) (x ∷ xs) [] h = ap (λ l. x ∷ l) (take-append n xs (omega (arith, h)))
take-copy (suc n) (x ∷ xs) (y ∷ b) h = ap (λ l. x ∷ l) (take-copy n xs b (omega (arith, h)))

overwrite_none : (xs : List ℕ) → overwrite xs [] ≡ []
overwrite_none [] = refl
overwrite_none (x ∷ xs) = refl

pub copy-overwrite :
    (n : ℕ) (xs b : List ℕ)
    → n ≡ min (length xs) (length b)
    → copy_from_slice n xs b ≡ overwrite xs b
copy-overwrite zero [] b h = refl
copy-overwrite zero (x ∷ xs) [] h = refl
copy-overwrite zero (x ∷ xs) (y ∷ b) h = absurd (omega (arith, h))
copy-overwrite (suc n) [] b h = absurd (omega (arith, h))
copy-overwrite (suc n) (x ∷ xs) [] h = absurd (omega (arith, h))
copy-overwrite (suc n) (x ∷ xs) (y ∷ b) h =
    ap (λ l. x ∷ l) (copy-overwrite n xs b (omega (arith, h)))

overwrite-append :
    (n : ℕ) (xs b c : List ℕ)
    → n ≡ min (length xs) (length b)
    → overwrite xs (b ++ c) ≡ overwrite xs b ++ overwrite (drop n xs) c
overwrite-append zero [] b c h = refl
overwrite-append zero (x ∷ xs) [] c h = refl
overwrite-append zero (x ∷ xs) (y ∷ b) c h = absurd (omega (arith, h))
overwrite-append (suc n) [] b c h = absurd (omega (arith, h))
overwrite-append (suc n) (x ∷ xs) [] c h = absurd (omega (arith, h))
overwrite-append (suc n) (x ∷ xs) (y ∷ b) c h =
    ap (λ l. x ∷ l) (overwrite-append n xs b c (omega (arith, h)))

scatter_from-overwrite :
    (offset : ℕ) (payload : List ℕ) (buffers : List (List ℕ))
    → concat (scatter_from offset payload buffers)
      ≡ overwrite (drop offset payload) (concat buffers)
unfolding scatter_from
scatter_from-overwrite offset payload [] = sym (overwrite_none (drop offset payload))
scatter_from-overwrite offset payload (b ∷ bs) = elim (dec_le (length payload) offset) [
  | yes past ↦ rw (le→leb (length payload) offset past, drop-all offset payload past) refl
  | no within ↦
      let n : ℕ = min (length payload - offset) (length b) in
      let size : n ≡ min (length (drop offset payload)) (length b) =
        omega (arith, length-drop offset payload) in
      rw (gt→leb (length payload) offset (omega (arith, within))) (
        ap (λ l. l ++ concat (scatter_from (offset + n) payload bs))
          (copy-overwrite n (drop offset payload) b size)
        ∙ ap (λ l. overwrite (drop offset payload) b ++ l)
            (scatter_from-overwrite (offset + n) payload bs
              ∙ ap (λ l. overwrite l (concat bs)) (sym (drop-drop offset n payload)))
        ∙ sym (overwrite-append n (drop offset payload) b (concat bs) size))
]

-- Receiving into one buffer writes as much of the packet as fits over its beginning, returns how much
-- that is, and so many bytes of the buffer are the packet's; receiving into several buffers does to
-- the buffers laid end to end what receiving into one does.
pub receive-overwrite :
    (packet : RoutedPacket) (buffer : List ℕ) (buffers : List (List ℕ))
    → ((receive_into packet buffer).1.1 ≡ overwrite packet.payload buffer)
      × (take (receive_into packet buffer).0 (receive_into packet buffer).1.1
          ≡ take (receive_into packet buffer).0 packet.payload)
      × (concat (receive_vectored packet buffers).1.1 ≡ (receive_into packet (concat buffers)).1.1)
unfolding receive_into receive_vectored scatter_datagram
receive-overwrite packet buffer buffers = (
  copy-overwrite _ packet.payload buffer refl,
  take-copy _ packet.payload buffer (omega arith),
  scatter_from-overwrite 0 packet.payload buffers
      ∙ sym (copy-overwrite _ packet.payload (concat buffers) refl),
)
