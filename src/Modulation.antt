-- ===== src/Modulation.antt =====
-- rds_encoder.c: `rds_generate_group_samples`, which codes the bits of a group's four blocks
-- differentially and appends the waveform of each three-bit window to the group's buffer.
pub mod Waveforms
pub mod Signal
pub mod Buffer
pub mod Receiver
use jmpxrds.Base.{
  ℕ, zero, suc, ◌+◌, ◌*◌, ◌%◌, ◌^◌, bit_and, bit_or, bit_xor, List, [], ◌∷◌, set, get_or, ◌==◌,
  if◌then◌else◌, ◌<<<◌, u8, u16,
}
use jmpxrds.Base.Int.{ℤ, pos, negsuc}
use jmpxrds.Block.{Block, generate_block, with_checkword}
use Waveforms.{symbol_waveforms}

abbrev pub samples_per_symbol : ℕ
samples_per_symbol = 40

abbrev pub group_samples : ℕ
group_samples = 4 * 26 * samples_per_symbol

-- `struct rds_group`.
pub record Group : Type 0 where
  pub code : ℕ
  pub version : ℕ
  pub blocks : List Block
  pub last_sample_idx : ℕ
  pub samples_buffer : List ℤ

-- The function's locals: the static `moving_window`, `buffer_offset` and the buffer itself.
pub record Modulator : Type 0 where
  pub window : ℕ
  pub buffer_offset : ℕ
  pub buffer : List ℤ

-- `memcpy` of `xs` to `buf + i`.
pub copy_at {ℓ} : {A : Type ℓ} → List A → ℕ → List A → List A
copy_at buf i [] = buf
copy_at buf i (x ∷ xs) = copy_at (set buf i x) (suc i) xs

-- The body of the inner loop, for bit `j` of the current block.
pub push_bit : ℕ → ℕ → Modulator → Modulator
push_bit current_block j m =
    let previous_bit = bit_and m.window 1 in
    let raw_bit : ℕ = if bit_and current_block (1 <<< j) == 0 then 0 else 1 in
    let current_bit = bit_xor raw_bit previous_bit in
    let window = bit_or (u8 (m.window <<< 1)) current_bit in
    record {
      window = window;
      buffer_offset = u16 (m.buffer_offset + samples_per_symbol);
      buffer = copy_at m.buffer m.buffer_offset (get_or symbol_waveforms (bit_and window 7) []);
    }

-- The inner loop, from bit `n - 1` down.
pub bits_loop : ℕ → ℕ → Modulator → Modulator
bits_loop zero current_block m = m
bits_loop (suc j) current_block m = bits_loop j current_block (push_bit current_block j m)

pub blocks_loop : List Block → Modulator → Modulator
blocks_loop [] m = m
blocks_loop (b ∷ bs) m = blocks_loop bs (bits_loop 26 (generate_block b) m)

unfoldable pub with_checkwords : List Block → List Block
with_checkwords [] = []
with_checkwords (b ∷ bs) = with_checkword b ∷ with_checkwords bs

-- The new `moving_window` and the group with its checkwords and samples; the function returns 0.
unfoldable pub generate_group_samples : ℕ → Group → ℕ × Group
unfolding blocks_loop bits_loop push_bit copy_at with_checkwords
generate_group_samples moving_window group =
    let m =
      blocks_loop group.blocks
        (record { window = moving_window; buffer_offset = 0; buffer = group.samples_buffer }) in
    (m.window, record group { blocks = with_checkwords group.blocks; samples_buffer = m.buffer })
