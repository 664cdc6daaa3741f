-- ===== src/Cid.antt =====
-- src/core/cid.rs: the generator of QUIC connection ids that carry a worker's index in two bytes.
-- `fill` stands for `getrandom::fill`: it returns the bytes that it wrote, or the text of its error.
pub mod Laws
pub mod Tests
use sfo_reuseport.Prelude.{
  ℕ, ◌+◌, ◌/◌, ◌%◌, ◌≤◌, ◌==◌, ◌&&◌, ltb, leb, not, List, [], ◌∷◌, length, replicate, set,
  if◌then◌else◌,
}
use sfo_reuseport.Error.{
  Error, invalid_config, runtime, Message, lit, num, text, Result, ok, err, ◌>>=◌, ◌>>◌, map_err,
}

pub record QuicCidGenerator : Type 0 where
  pub worker_index : ℕ
  pub cid_len : ℕ

abbrev pub default_cid_len : ℕ
default_cid_len = 8

abbrev pub min_cid_len : ℕ
min_cid_len = 8

abbrev pub max_cid_len : ℕ
max_cid_len = 20

abbrev pub max_worker_index : ℕ
max_worker_index = 0xffff

unfoldable pub validate_worker_index : ℕ → Result Error (Unit {0})
validate_worker_index worker_index =
    if leb worker_index max_worker_index
    then ok tt
    else err (
        invalid_config
          (lit "QUIC CID worker index must be between 0 and " ∷ num max_worker_index ∷ []))

unfoldable pub validate_cid_len : ℕ → Result Error (Unit {0})
validate_cid_len cid_len =
    if leb min_cid_len cid_len && leb cid_len max_cid_len
    then ok tt
    else err (
        invalid_config (
          lit "QUIC CID length must be between "
          ∷ num min_cid_len
          ∷ lit " and "
          ∷ num max_cid_len
          ∷ lit " bytes"
          ∷ []))

unfoldable pub new : ℕ → Result Error QuicCidGenerator
unfolding validate_worker_index
new worker_index = do
  validate_worker_index worker_index
  ok (record { worker_index = worker_index; cid_len = default_cid_len })

unfoldable pub for_worker : ℕ → Result Error QuicCidGenerator
unfolding new
for_worker worker_index = new worker_index

unfoldable pub with_cid_len : QuicCidGenerator → ℕ → Result Error QuicCidGenerator
unfolding validate_cid_len
with_cid_len g cid_len = do validate_cid_len cid_len; ok (record g { cid_len = cid_len })

-- `as u8` keeps the low eight bits.
unfoldable pub encode_worker_index_prefix : ℕ → List ℕ → Result Error (List ℕ)
unfolding validate_worker_index
encode_worker_index_prefix worker_index buffer = do
  validate_worker_index worker_index
  if ltb (length buffer) 2
      then err (invalid_config (text "QUIC CID buffer must contain a two-byte worker index prefix"))
      else ok (set (set buffer 0 (worker_index / 256 % 256)) 1 (worker_index % 256))

module _ (fill : List ℕ → Result Message (List ℕ)) where
  -- Returns the buffer as it is after the call.
  unfoldable pub generate_into : QuicCidGenerator → List ℕ → Result Error (List ℕ)
  unfolding validate_cid_len encode_worker_index_prefix
  generate_into g buffer =
      if not (length buffer == g.cid_len)
      then err (
          invalid_config
            (lit "QUIC CID buffer length must equal configured CID length " ∷ num g.cid_len ∷ []))
      else do
        validate_cid_len (length buffer)
        filled ←
            map_err (λ e. runtime (lit "QUIC CID random generation failed: " ∷ e)) (fill buffer)
        encode_worker_index_prefix g.worker_index filled

  unfoldable pub generate : QuicCidGenerator → Result Error (List ℕ)
  unfolding generate_into
  generate g = generate_into g (replicate g.cid_len 0)
