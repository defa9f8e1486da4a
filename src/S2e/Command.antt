-- ===== src/S2e/Command.antt =====
-- services/simulation-server/src/s2e.rs: the constants of the protocol and the parser of commands.
-- A byte is a number below 256; a datagram is a list of bytes.
pub mod Frames
pub mod Corruption
use scrap_monitoring_simulat.Prelude.{
  ℕ, ◌+◌, ◌-◌, ◌*◌, ◌^◌, bit_and, bit_xor, Bool, ◌||◌, not, Option, none, some, List, [], foldl,
  ltb, ◌==◌, if◌then◌else◌, ◌>>=◌, ◌>>◌, guard, length, get_elem?, get_or, take, slice,
}

abbrev pub command_sync : ℕ
command_sync = 0xa5

abbrev pub answer_sync_1 : ℕ
answer_sync_1 = 0xa5

abbrev pub answer_sync_2 : ℕ
answer_sync_2 = 0x5a

abbrev pub loop_response_flag : ℕ
loop_response_flag = 2 ^ 30

abbrev pub command_stop : ℕ
command_stop = 0x25

abbrev pub command_reset : ℕ
command_reset = 0x40

abbrev pub command_get_device_info : ℕ
command_get_device_info = 0x50

abbrev pub command_get_device_health : ℕ
command_get_device_health = 0x52

abbrev pub command_express_scan : ℕ
command_express_scan = 0x82

abbrev pub command_get_lidar_conf : ℕ
command_get_lidar_conf = 0x84

abbrev pub command_hq_motor_speed : ℕ
command_hq_motor_speed = 0xa8

pub record Command : Type 0 where
  pub code : ℕ
  pub payload : List ℕ

-- The fold of `^` over the bytes.
abbrev pub checksum : List ℕ → ℕ
checksum = foldl bit_xor 0

-- The indices stand behind the length tests, so that the defaults of `get_or` are never read.
unfoldable pub parse_command : List ℕ → Option Command
parse_command frame =
    if ltb (length frame) 2 || not (get_or frame 0 0 == command_sync)
    then none
    else let code = get_or frame 1 0 in
      if bit_and code 0x80 == 0
      then if length frame == 2 then some (record { code = code; payload = [] }) else none
      else (do
        size ← get_elem? frame 2
        guard (length frame == size + 4)
        guard (checksum (take (length frame - 1) frame) == get_or frame (length frame - 1) 0)
        some (record { code = code; payload = slice 3 size frame }))
