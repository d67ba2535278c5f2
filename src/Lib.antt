-- ===== src/Lib.antt =====
-- The firmware of a BLE remote control on an ESP32-S3, which wakes and tests a television: a
-- verification of its parts over the functions of Zephyr, MCUboot and PSA that they call.
--
-- The program's parts. `main` starts the file system, the network and the BLE part, and then passes
-- the texts of a WebSocket server to the RPC part. That part starts and stops the advertising of
-- the BLE part, as shell commands do. A thread of the BLE part switches a television off and on by
-- an HTTP relay and wakes it by advertising. Shell commands download a file onto the SD card,
-- print its SHA-256, write an image from the card into flash for MCUboot, and measure the card.
--
-- Files, and the code that they model:
--   Zephyr     what the parts call. Zephyr.Calls has a constructor for each function that is called
--              (fs_*, flash_area_*, MCUboot, PSA crypto, the heap and the clock, Bluetooth, sockets
--              and the HTTP client, eventfd and poll, the list of events, Wi-Fi and the disk), and
--              the type of its answers; Zephyr.Prog has programs over such calls and their run
--              against an environment, which answers each call from the calls before it;
--              Zephyr.Holds has the rules by which a property of every run is proved, Zephyr.Partial
--              those for the runs that give a result, and Zephyr.Avoids those for programs that
--              leave some calls out; Zephyr.Usage reads files, memory, flash and sockets off the
--              calls of a run; Zephyr.Documented says what the documentation promises of the
--              answers; and Zephyr.Sample is an environment to run examples against.
--   Upgrade    src/upgrade.c. `write_ota_file_to_partition` is cut where its `goto cleanup` joins:
--              `write_opened`, `transfer`, `copy` and `cleanup`.
--   Sha256     src/sha256sum.c: `calculate_file_sha256` and the text that `print_sha256_sum` builds.
--   HttpClient src/http_client.c: the requests to the relay.
--   HttpDl     src/http_dl.c: the download, the callback for its fragments and its progress bar;
--              HttpDl.Upgraded and HttpDl.Succeeds have the download followed by an upgrade
--              with the file.
--   SdSpeed    src/sd_speed.c: the speed test, over `strtoul` as a parameter.
--   Rpc        src/rpc_route.c: `rpc_execute` and the handler of `ble_adv`.
--   RpcSend    src/rpc_send.c: the messages to the server.
--   Main       src/main.c. Main.Queue has the list of events and `evt_send`; Main.Handle the body of
--              `evt_handle` and its loop; Main.Poll `poll_loop`, cut into what it does for the
--              socket and for the eventfd, `main` and the timer thread; Main.Threads runs threads
--              between one another, call by call; Main.Duty says what a thread owes the list; and
--              Main.Requested follows a request of the server down to the advertising, and
--              Main.Station the events of the Wi-Fi station down to the start of the BLE part.
--   Wscli      src/wscli.c: the sockets of the WebSocket client.
--   Sta        src/sta.c: the Wi-Fi station.
--   FatFs      src/fatfs.c: the SD card and its listing.
--   Lfs        src/lfs.c: a boot counter and a test pattern in files, which no build file compiles.
--   Ble        src/ble_rc.c. Ble.State has its file-scope variables as one record; Ble.Adv the
--              advertising, the callbacks of a connection and the work items; Ble.Keys the HID
--              reports and writes; Ble.Hid the attributes of the HID service and how a host reads
--              them; Ble.AdvData what is advertised; Ble.Address the identity and the start;
--              Ble.Check the thread that tests the television. Ble.Interleave runs the threads
--              between one another, and Ble.Radio reads off the calls what the controller does;
--              Ble.Threads lists what the threads run and has the rule by which all of it keeps an
--              invariant, which Ble.Mirror, Ble.Permitted and Ble.Sized are instances of.
-- Base has what the modules share: C's tests, lists, integers and strings.
--
-- How code becomes a definition. A function that calls others is a program, `Prog`: a result, a
-- call with the rest for each answer, `fault` for undefined behaviour (a null pointer compared, a
-- byte written outside of a buffer, a remainder by 0), or `out_of_fuel`. An `int` result is a ℤ; a
-- byte string is a List ℕ; sizes are ℕ with their wrap-around written out. Logging and printing are
-- left out. The environment is a parameter of every theorem about runs, and a theorem says under
-- which answers it holds. `json_obj_parse`, `json_obj_encode_buf`, `bt_gatt_attr_read` and `strtoul`
-- are parameters of the functions that call them, as are the identifier and the size of a flash area.
--
-- The shared variables of the BLE part pass through its functions, and a sleep, like a wait for the
-- semaphore, hands them to the environment or, in Ble.Interleave, to the other threads, where the
-- semaphore has its count. Between two such waits a function is taken to run undisturbed: preemption
-- inside such a stretch, by a higher priority or while a socket blocks, is not modelled. The end of
-- the advertising by a connection, and the callback of that connection, are one step. The
-- list of events is not such a variable: its operations are calls of the environment, and in
-- Main.Threads any thread may make the next call. `main` has its two descriptors as its state, and
-- the other threads are given that of the eventfd.
--
-- Fuel. A loop that the size of a file bounds takes that size and one more as fuel. The loop of the
-- digest, those of the speed test and those of the check thread have no bound in the code, so their
-- fuel is an argument, and so it is for the loops of the listings, of `wscli_recv` and of
-- `evt_handle`; the theorems about the digest, the speed test, the check thread, the listings, the
-- receiving and the handling of events say how much is enough. The loops of `main`, of the
-- timer thread and of the check thread around its semaphore do not end, and their fuel is the rounds
-- that are looked at. In Ble.Interleave the fuel of the check thread is any number, and a run that
-- would need more of it before its next wait is no step.
--
-- Not modelled. What is only printed, as by `dump_version_infos`, but for the progress bar, the digest
-- and the test pattern; code under `#if 0` and WIFI_WAIT_WITH_SEM; the start of the WebSocket client,
-- which `evt_handle` has under `#if 0`, so that a socket in the state of `main` is assumed where a
-- theorem speaks of one; events sent before `main` has its eventfd; the speeds that the speed test
-- prints; the registration of shell commands, threads and callbacks; and the configuration of the
-- build. `bt_gatt_attr_read` and the search for an attribute by its UUID are Zephyr's, and so are the
-- macros of the GATT service, whose attributes Ble.Hid lists by the indices that the code gives.
pub mod Base
pub mod Ble
pub mod Zephyr
pub mod Upgrade
pub mod Sha256
pub mod HttpClient
pub mod Rpc
pub mod HttpDl
pub mod SdSpeed
pub mod RpcSend
pub mod Main
pub mod Wscli
pub mod FatFs
pub mod Lfs
pub mod Sta
