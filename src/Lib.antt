-- ===== src/Lib.antt =====
-- Moonlight Embedded: a client for NVIDIA GameStream on small computers.
--
-- The parts of the program that are modelled, and the file of each:
--
--   Mapping     src/input/mapping.h and mapping.c: struct mapping, mapping_load and mapping_save,
--               on the text of a file.
--   Config      src/config.h and config.c. Config has CONFIGURATION and get_path; Config/Argument the
--               table long_options and parse_argument, Config/File config_file_parse, Config/Save
--               config_save, Config/Parse config_parse.
--   Xml         libgamestream/xml.c: the handlers that expat calls, xml_search and xml_applist.
--   Client      libgamestream/client.c over http.c: Client has SERVER_DATA, the requests and the
--               searches in the answers, as steps that end early with a status; Client/Status
--               load_server_status, Client/App gs_unpair, gs_applist, gs_start_app and gs_quit_app,
--               Client/Hex bytes_to_hex, Client/Pair gs_pair, Client/Init gs_init with
--               mkdirtree, load_unique_id and load_cert.
--   Loop        src/loop.c. Loop has the table of descriptors and handlers, Loop/Run loop_main in a
--               program that is a parameter.
--   Connection  src/connection.c and global.c: the end of the connection.
--   Platform    src/platform.c and platform.h.
--   Sps         libgamestream/sps.c. Sps has what gs_sps_fix does to a sequence parameter set,
--               Sps/Buffers the function whole, on the memory that holds a frame's list of buffers.
--   Imx         src/video/imx.c: decoder_renderer_submit_decode_unit. What the decoder and the
--               device answer is a parameter, and addresses in the stream buffer are offsets.
--   KeyCodes    src/input/keyboard.h: the table keyCodes.
--   SdlInput    src/input/sdlinput.h and sdlinput.c. SdlInput has the data, the table keyCodes and
--               get_gamepad; Key, Pad and Event have the cases of sdlinput_handle_event.
--   Sdl         src/sdl.h and sdl.c: sdl_init and sdl_loop.
--   Cec         src/input/cec.c: the remote control of a television.
--   Udev        src/input/udev.c: which device files are opened.
--   Main        src/main.c. Main has applist, get_app_id, stream and pair_check, Main/Start main.
--   Evdev       src/input/evdev.c. Evdev has the structs and evdev_init_parms. Its children:
--               Convert has evdev_convert_value, _byte and _direction; Syn, Key, Button and Axis
--               have the cases of the switch of evdev_handle_event, which Event puts together;
--               Devices has the table of devices, with evdev_remove and evdev_handle; Create has
--               evdev_create, Learn evdev_handle_mapping_event, and Map evdev_map, evdev_drain and
--               evdev_start.
--   Limelight   the constants and calls of moonlight-common-c (a git submodule): the constants are
--               a record that every definition takes, the calls are values, listed in their order.
--   Libc        the functions of the C library that the program parses and prints with: printf's
--               %d, strtol and atoi, getline, and the two sscanf formats.
--   Prelude     numbers, masks, texts and exits.
--
-- How they interact: evdev_handle is called with a ready descriptor and reads the pending events
-- of the devices, each with the handler in place. The handler changes the device, takes a
-- controller id from the shared bits, and sends input events to the host. A device's mapping says
-- what its buttons and axes mean, and comes from a file that mapping_load reads. config_parse starts
-- from the defaults, reads configuration files and the command line with parse_argument, which reads
-- further files where an option names one, saves what a later run can read, and checks the inputs.
-- The functions of the client make requests of the host and read its answers with the two searches
-- of xml.c; they keep what they learn of the host in SERVER_DATA. main puts them together: config_parse,
-- platform_check, the file of the host, gs_init, and the function for the action, on one session with
-- the host; the calls that it makes of the other parts are values, in their order. A stream is run by
-- loop_main, which calls the handlers of the ready descriptors, or by sdl_loop, which gives every
-- event to sdlinput_handle_event and carries out what that answers.
--
-- A frame of the stream is a list of buffers, which gs_sps_fix changes at its head, and which the
-- decoder takes in their order.
--
-- Conventions. The statics of a file are a record that is passed on. A C int is an integer; where
-- the source converts to a narrower type the wrap-around is written out (to_short, to_char), and
-- arithmetic on ints themselves is taken not to overflow. A mask is a function from bit numbers to
-- Booleans, so that a proof about masks holds for every width; where the source compares masks, the
-- width is written out. A text is a list of bytes without a zero byte; a file is its text, or
-- nothing when it cannot be opened. A call that leaves the process is a value (exited) with its
-- status. The constants of linux/input.h are a record (InputCodes). What libevdev returns is a list
-- of results per device, in the order of the calls; past its end a device answers -EAGAIN. The loop
-- of evdev_handle runs on as many rounds as the table has slots when it starts, which is enough, as
-- a slot is passed or removed in every round. A pass of loop_main takes a bound on its rounds: the
-- entries of the table and two more are enough where handlers keep the table, but a handler that adds
-- an entry in every call could go on for ever, in the source as well.
--
-- Not modelled: the audio back ends, the video back ends but for Imx, discovery and the making of
-- certificates, since they are calls of other libraries; messages, but for the list of apps; the
-- allocation of memory, but for that of gs_sps_fix. The buffers of fixed size into which main and the
-- client print file names are taken to be large enough.
pub mod Prelude
pub mod Libc
pub mod Limelight
pub mod KeyCodes
pub mod Mapping
pub mod Config
pub mod Xml
pub mod Client
pub mod Loop
pub mod Connection
pub mod Platform
pub mod Sps
pub mod Imx
pub mod SdlInput
pub mod Sdl
pub mod Cec
pub mod Udev
pub mod Main
pub mod Evdev
pub mod Tests
