-- ===== src/Nio/Codes.antt =====
-- The numbers of include/nio.h: device ids, commands, statuses and the error codes of the driver.
use fujinet_msdos.Base.{ℕ, Bool, ◌==◌}
use fujinet_msdos.Nio.Protocol.{ProtoCode}

abbrev pub device_disk : ℕ
device_disk = 0xFC

abbrev pub device_network : ℕ
device_network = 0xFD

abbrev pub status_ok : ℕ
status_ok = 0

abbrev pub status_io_error : ℕ
status_io_error = 5

abbrev pub status_internal_error : ℕ
status_internal_error = 7

abbrev pub disk_version : ℕ
disk_version = 1

abbrev pub cmd_read_sector : ℕ
cmd_read_sector = 0x03

abbrev pub cmd_write_sector : ℕ
cmd_write_sector = 0x04

abbrev pub cmd_info : ℕ
cmd_info = 0x05

abbrev pub cmd_read_sectors : ℕ
cmd_read_sectors = 0x08

abbrev pub cmd_write_sectors : ℕ
cmd_write_sectors = 0x09

abbrev pub info_inserted : ℕ
info_inserted = 0x01

abbrev pub info_readonly : ℕ
info_readonly = 0x02

abbrev pub info_changed : ℕ
info_changed = 0x08

-- The NIO_ERR_… codes, in the order of their numbers 0 to 12.
pub data NioError : Type 0 where
  no_error short_frame length_mismatch bad_checksum device_command bad_fields : NioError
  empty_status reply_too_large bad_status bad_payload timed_out buffer_full uart : NioError

-- The number of an error code.
unfoldable pub error_code : NioError → ℕ
error_code no_error = 0
error_code short_frame = 1
error_code length_mismatch = 2
error_code bad_checksum = 3
error_code device_command = 4
error_code bad_fields = 5
error_code empty_status = 6
error_code reply_too_large = 7
error_code bad_status = 8
error_code bad_payload = 9
error_code timed_out = 10
error_code buffer_full = 11
error_code uart = 12

-- The NIO_PROTO_ERR_… codes have the numbers of the NIO_ERR_… codes of the same names.
unfoldable pub from_proto : ProtoCode → NioError
from_proto ProtoCode.ok = no_error
from_proto ProtoCode.short_frame = short_frame
from_proto ProtoCode.length_mismatch = length_mismatch
from_proto ProtoCode.bad_checksum = bad_checksum
from_proto ProtoCode.device_command = device_command
from_proto ProtoCode.bad_fields = bad_fields
from_proto ProtoCode.empty_status = empty_status
from_proto ProtoCode.reply_too_large = reply_too_large

-- `nio_status_ok`.
unfoldable pub is_status_ok : ℕ → Bool
is_status_ok status = status == status_ok
