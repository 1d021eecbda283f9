-- ===== src/Tests/Coding.antt =====
-- The block coding and the modulation at concrete inputs.
use jmpxrds.Modulation.{group_samples, generate_group_samples}
use jmpxrds.Modulation.Signal.{message, signal, last_window}
use jmpxrds.Modulation.Buffer.{generate_group_samples-signal}
use jmpxrds.Modulation.Receiver.{receive, receive-generate_group_samples}
use jmpxrds.Base.{◌+◌, ◌*◌, ◌/◌, ◌%◌, ◌^◌, ◌<◌, length, ◌≡◌, ◌≢◌, refl, arith, bit_xor}
use jmpxrds.Block.{generate_block, with_checkword}
use jmpxrds.Block.Crc.{syndrome}
use jmpxrds.Block.Checkword.{syndrome-generate_block}
use jmpxrds.Block.Errors.{errors-detected}
use jmpxrds.Tests.Data.{block_1, block_1-IsBlock, group_1}

syndrome-generate_block_example :
    (syndrome (generate_block block_1) ≡ 0xFC)
    × (generate_block block_1 / 1024 ≡ 0x54A8)
    × (generate_block block_1 < 2 ^ 26)
syndrome-generate_block_example = syndrome-generate_block block_1 block_1-IsBlock refl

block_1-syndrome : syndrome (0x54A8 * 1024 + 0x3ca) ≡ 0xFC
unfolding syndrome
block_1-syndrome = refl

generate_group_samples-signal_example :
    let (w', g') = generate_group_samples 5 group_1 in
    (w' ≡ last_window 5 (message group_1.blocks))
    × (g'.samples_buffer ≡ signal 5 (message group_1.blocks))
    × (length g'.samples_buffer ≡ group_samples)
generate_group_samples-signal_example = generate_group_samples-signal 5 group_1 refl refl

receive-generate_group_samples_example :
    let (w', g') = generate_group_samples 5 group_1 in
    receive 104 g'.samples_buffer (w' % 2) ≡ message group_1.blocks
receive-generate_group_samples_example = receive-generate_group_samples 5 group_1 refl refl

errors-detected_example :
    (syndrome (bit_xor (generate_block block_1) (0x3A5 * 2 ^ 9)) ≢ 0xFC)
    × (0x3ca ≡ (with_checkword block_1).checkword)
errors-detected_example =
    errors-detected block_1 9 0x3A5 0x3ca block_1-IsBlock refl (omega arith) (omega arith)
      (λ e. omega (arith, e)) (omega arith) block_1-syndrome
