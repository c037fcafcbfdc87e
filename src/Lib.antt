-- ===== src/Lib.antt =====
-- fujinet-msdos: the MS-DOS block device driver that reaches disk images on a FujiNet over a serial
-- line, and the redirector that makes a network host a drive of DOS.
--
-- A request of DOS comes in through `Interrupt` (sys/dispatch.c), which calls a command of
-- sys/commands_nio.c. The commands keep a cache of sectors and of disk information, and ask the disk
-- service of the peer through sys/nio.c. That makes each request a transaction
-- (sys/nio_transaction.c): a frame is sent, frames are received and validated (sys/nio_protocol.c),
-- responses to other requests are skipped, and faults of the line are retried.
--
-- The redirector (fnshare/redir.c) is called by DOS for each file operation on its drive. It turns the
-- names of DOS into paths of the host and calls the network files of ncopy/fujifs.h, which are an
-- interface here: the record `FujiFs` of functions over the state of the host, any state.
--
-- The files:
--   Base            shared names, Boolean tests, lists over native numbers, machine words
--   Nio.Checksum    nio_protocol_checksum
--   Nio.Protocol    sys/nio_protocol.h and .c: the frame header, nio_protocol_validate_response
--   Nio.Codes       the numbers of include/nio.h
--   Nio.Port        the data of sys/nio_transaction.h: the port as a record of functions, the
--                   buffers, the response, the diagnosis
--   Nio.Transaction sys/nio_transaction.c: nio_transaction_once, nio_transaction_call
--   Nio.Disk        sys/nio.c: nio_call, nio_disk_info and the two reads
--   Nio.DiskWrite   sys/nio.c: the two writes, which build their frames by hand
--   Nio.Sample      a scripted peer for the tests
--   Driver.Cache    sys/commands_nio.c: the sector cache
--   Driver.State    its file-scope variables, the request packet of sys/sys_hdr.h, small helpers
--   Driver.Config   nio_driver_config_init and the parsers of environment variables
--   Driver.Media    Media_check_cmd, Build_bpb_cmd
--   Driver.Control  fill_query, nio_handle_control_call
--   Driver.Ioctl    handle_ioctl_buffer on the blocks of sys/ioctl.h
--   Driver.Input    Input_cmd
--   Driver.Output   Output_cmd
--   Driver.Dispatch the commands that only answer a status, the table and Interrupt
--   Driver.IntF5    sys/intf5_nio.c: interrupt F5 of the NIO driver
--   Driver.Sample   a driver for the tests
--   Redirector.Names       the paths and names of fnshare/redir.c, match_to_mask of dosfunc.c
--   Redirector.State       the areas of DOS, the registers, the interface FujiFs, fail, succeed
--   Redirector.Search      find_first, find_next
--   Redirector.Directories remove_dir, make_dir, chdir, get_attr, set_attr, inquiry, disk_space
--   Redirector.OpenFiles   close, commit, read, write, lock, unlock, seek and open_extended
--   Redirector.Bulk        rename_files, delete_files
--   Redirector.Dispatch    dispatch_table, is_call_for_us, redirector
--   Redirector.Sample      a host for the tests
--   Fujifs          ncopy/fujifs.c: the network handles and the requests to the devices
--   Fujifs.Open     fujifs_open, fujifs_close
--   Fujifs.Transfer fujifs_read, fujifs_write, fujifs_seek
--   Fujifs.Paths    fujifs_opendir, fujifs_chdir and the other operations on paths, fujifs_open_url
--   Ncopy           ncopy/ncopy.c: copying a file from the network and to it, the password prompt
--   Ncopy.Parser    ncopy/parser.c: the commands of the copy program
--   Fujicom         sys/fujicom.c: fuji_bus_call, the request of the older command set
--   BusCommands     sys/commands.c: media check, BPB, input, output and query of the older driver
--   FujiF5          include/fuji_firmware.h and sys/intf5.c: interrupt F5, the requests of the programs
--   Printer         printer/commands.c, int17.c and dispatch.c: the printer driver
--   Console         sys/print.c: the numbers, vconsolef, dumpHex
--   Init            sys/init.c: parse_config
--   Init.Command    Init_cmd, get_set_time
--   Init.Port       sys/port_config.c: fujicom_init
--
-- State is passed explicitly: the file-scope variables of sys/nio.c are the record `Nio`, those of
-- sys/commands_nio.c the record `Driver`. The serial port is a record of functions over a state of its
-- own, any state, and every theorem holds for every port. Integers of w bits are native numbers with
-- their wrap-around written out. Loops that read from the peer are recursive on fuel, and `none` is
-- what a loop without fuel left gives: two stale responses are skipped at most, so three rounds are
-- enough for a transaction of the driver, and a read command needs one round for each sector and for
-- each time that the sizes of its requests are cut. A search of the redirector needs a round for each entry
-- of the directory and one more, and a deletion a round for each file and two more.
-- A copy needs a round for each byte that is left at most, and one more.
--
-- Not modelled: the messages on the console, the stack switch and the register saving around
-- `Interrupt`, the set-up of the hardware by the initialisation, the serial port itself and its SLIP coding, which are
-- assembly, memory behind the end of a buffer that the caller has given too short, and the rest of the
-- repository: the installation of the redirector (fnshare/fnshare.c), the directory listings
-- of ncopy/fujifs.c, the shell of the copy program, and the tools. Of the redirector, the stack
-- switch is not modelled, nor the registers that no function of it looks at, nor memory behind an area
-- of a fixed size that a name is too long for.
pub mod Base
pub mod Nio
pub mod Driver
pub mod Redirector
pub mod Fujifs
pub mod BusCommands
pub mod Console
pub mod FujiF5
pub mod Fujicom
pub mod Init
pub mod Ncopy
pub mod Printer
