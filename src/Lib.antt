-- ===== src/Lib.antt =====
-- Verification of the init program of this repository (android2.1_init/init, in C): the process that
-- reads init.rc, keeps the system properties, and starts, watches and restarts the services; and of
-- the AT channel and the event loop of its radio interface (android2.1_init/hard_ril).
--
-- The parts and how they interact. init reads its configuration with a tokenizer and a parser into a
-- list of services and a list of actions. Triggers and changes of properties put actions on a
-- queue, and the main loop takes them off and runs their commands, which start and stop services,
-- set properties, import further files and pull triggers. Clients set properties through a
-- socket, guarded by two access lists; names with the prefix "ctl." start and stop services
-- instead. When a process ends, its service is restarted, disabled, or, if it is critical and crashes
-- too often, the device reboots into recovery. Whatever changes a property may run actions in turn.
-- Events of the kernel make and remove device nodes. The radio interface sends AT commands to a modem:
-- one thread issues a command and waits, the reader thread takes the lines of the modem from a buffer,
-- collects the answer, and passes the other lines to a handler. Above the channel the radio turns the
-- requests of libril into commands, and completes each request with what the modem answers.
--
-- The files, with the code they model:
--   Init/Links: struct listnode, list_init, list_add_tail, list_remove of android2.1_init/init/util.c
--     and the macros of android2.1_init/init/init.h. A node is a number, the heap two maps.
--   Init/Keywords: keyword_info and lookup_keyword of android2.1_init/init/parser.c, with the table of
--     android2.1_init/init/keywords.h.
--   Init/Lexer: next_token of android2.1_init/init/parser.c, one step for each place of the reader.
--   Init/Config: the structures of android2.1_init/init/init.h, and in Init/Config/Valid what the
--     parser guarantees of them. Init/Uid: decode_uid of android2.1_init/init/util.c.
--   Init/Parser: parse_config with the sections, options and commands of
--     android2.1_init/init/parser.c, the options of a service in Init/Parser/Options. An error message
--     is a value with its line.
--   Init/Properties: the property area and the access lists of
--     android2.1_init/init/property_service.c.
--   Init/World: the global variables as one record, and the calls of the kernel as a trace.
--   Init/Queue: action_queue and the triggers of android2.1_init/init/parser.c.
--   Init/Services: service_start, service_stop, restart_service_if_needed and property_set with
--     the actions that it sets off (android2.1_init/init/init.c, property_service.c).
--   Init/Builtins: the commands of android2.1_init/init/builtins.c, and wait_for_one_process and
--     restart_processes of android2.1_init/init/init.c.
--   Init/Machine: drain_action_queue, control messages, requests, chords of keys and the main loop of
--     android2.1_init/init/init.c. Init/Machine/Steps is its specification, a step relation.
--   Init/Load: the files from which android2.1_init/init/property_service.c reads properties.
--   Init/Keychords: the chords of keys of android2.1_init/init/init.c.
--   Init/Options: the kernel command line and /proc/cpuinfo, for android2.1_init/init/init.c.
--   Init/Boot: main of android2.1_init/init/init.c from init.rc to the loop. Host is what it reads.
--   Init/Devices: android2.1_init/init/devices.c. The calls that change the file system are values;
--     DeviceIds are the user ids of a header that is not here. Init/Devices/Table is devperms,
--     Init/Devices/Uevents the messages, Init/Devices/Access the permissions, and
--     Init/Devices/Copy load_firmware, with what write returns as a parameter.
--   Init/Platform: what stands outside the repository: constants of bionic's headers, the reader of
--     the property area, and the answers of system calls, each an arbitrary function of the number of
--     questions put so far. IsPlatform and IsSized are what the theorems ask of it.
--   Ril/AtTok: android2.1_init/hard_ril/reference-ril/at_tok.c. Ril/Misc: strStartsWith of misc.c there.
--   Ril/Responses: the kinds of lines of a modem, in atchannel.c.
--   Ril/Channel: processLine, readerLoop and the writes of
--     android2.1_init/hard_ril/reference-ril/atchannel.c. Link is what write answers, Channel the static
--     variables of the file; a read through a null pointer is a value of Run.
--   Ril/Commands: at_send_command_full of atchannel.c. What the reader thread does while the issuer
--     sleeps is a list of events, any list at all in the theorems. Ril/Issue: the functions for clients.
--   Ril/Readline: readline of atchannel.c on its buffer of 8193 bytes. Source is what read answers.
--   Ril/Radio: the static variables of android2.1_init/hard_ril/reference-ril/reference-ril.c, what it
--     tells libril, and how it puts a command. Ril/Telephony: the types of
--     android2.1_init/hard_ril/include/telephony/ril.h. Modem is what the channel answers to the n-th
--     command. Ril/Radio/Moves is a step relation for what the functions do.
--   Ril/Cards: getCardStatus. Ril/Sim: setRadioState, pollSIMState, getSIMStatus, isRadioOn and
--     initializeCallback.
--   Ril/Fields: how a line is read field by field. Ril/Calls: callFromCLCCLine and
--     requestGetCurrentCalls. Ril/Reports, Ril/Networks, Ril/DataCalls: the requests that read an
--     answer. Ril/Setup: requestSetupDataCall, with Qmi for the device that it opens.
--   Ril/Requests: the other requests. Ril/Dispatch: onRequest and onUnsolicited, and in
--     Ril/Dispatch/Events all that the radio is called for.
--   Ril/Timers: the timers of android2.1_init/hard_ril/libril/ril_event.cpp.
--   Ril/Watches: the watched descriptors of ril_event.cpp there. A call that waits for a mutex that is
--     never released does not come back.
--   Ril/Tests: a modem, a buffer, a response, a clock and a radio.
--   Init/Tests: one environment, one world, and the theorems applied to them.
--
-- Fuel. parse_config gives its loop as much fuel as the text has steps left, which is proved to be
-- enough. The main loop may run for ever, since actions may queue actions and set properties; a
-- computation on the world has fuel and says so if it runs out. It also says if a command reads an
-- argument that is not there. A write in Ril/Channel and a page in Init/Devices/Copy have fuel for each
-- byte, which is proved to be enough. readline may read for ever, and has fuel. setRadioState calls itself
-- through pollSIMState; its fuel is the depth of its calls, and two are proved to be enough.
--
-- Taken as given: memory is never exhausted; the clock is not negative; long and unsigned are 32 bits
-- wide; a string is the list of its bytes, up to the NUL.
--
-- Not modelled: what a command does to the kernel alone (mkdir, mount and so on are one event with
-- their arguments); the environment, sockets and console of a child; the mounts, sockets and the image at
-- the start of main, and the shared memory of the property area, which is taken to be there from the
-- start; bootchart.c and logo.c of android2.1_init/init; the socket, the walk of coldboot and the child
-- process of devices.c; the power control of OMAP boards, the log and the pause behind a handshake of
-- atchannel.c; of android2.1_init/hard_ril, the loop around select of libril/ril_event.cpp, the parcels of
-- libril/ril.cpp, and of reference-ril/reference-ril.c mainLoop with the devices that it opens, RIL_Init,
-- the release of memory, and races of two threads for the state of the radio; and the
-- board tests of 43reliability, which drive registers.
pub mod Base
pub mod Init
pub mod Ril
