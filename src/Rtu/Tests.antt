-- ===== src/Rtu/Tests.antt =====
-- Frames on a UART that plays back its answers, and a block that never answers.
use deye_inverter_display_es.Common.{◌≡◌, refl, pos, [], ◌∷◌, take, drop, arith}
use deye_inverter_display_es.Rtu.{
  Bytes, Uart, Block, crc_bit, crc_bits, crc_from, crc16, hi, lo, with_crc, write_answer, rtu_read,
  rtu_write,
}
use deye_inverter_display_es.Rtu.Frames.{read_response, rtu_read-response}

-- The state is what the slave will write_bytes.
abbrev playback : Uart
playback = record {
  State = Bytes;
  write_bytes = λ m s. s;
  read_bytes = λ n s. (take n s, drop n s);
}

-- The checksum of the Modbus documentation's example.
crc_known : crc16 (1 ∷ 4 ∷ 2 ∷ 0xFF ∷ 0xFF ∷ []) ≡ 0x80B8
unfolding crc_from crc_bits crc_bit
crc_known = refl

rtu_read-response_example :
    rtu_read playback 1 588 2 (read_response 1 (5120 ∷ 77 ∷ [])) ≡ ((pos 0, 5120 ∷ 77 ∷ []), [])
rtu_read-response_example =
    rtu_read-response playback 1 588 (5120 ∷ 77 ∷ []) (read_response 1 (5120 ∷ 77 ∷ [])) []
      (omega arith, (omega arith, tt)) (omega arith) refl

-- The echo of a write of 2 to register 142.
abbrev echo : Bytes
echo = with_crc (1 ∷ 0x10 ∷ hi 142 ∷ lo 142 ∷ 0 ∷ 1 ∷ [])

echo_accepted : (rtu_write playback 1 142 2 echo).0 ≡ pos 0
unfolding rtu_write write_answer crc_from crc_bits crc_bit
echo_accepted = refl

abbrev fresh : Block
fresh = record { fails = 0; retry_us = 0 }
