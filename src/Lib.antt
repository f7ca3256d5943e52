-- ===== src/Lib.antt =====
-- cores3-epskc-commissioner: a Thread border router and external commissioner for the M5Stack
-- CoreS3, in C on ESP-IDF.
--
-- The parts that are modelled, with their files (paths from the repository's root):
--   main/meshcop_codec.h   the CoAP and MeshCoP parsers: MeshCop/Codec (the definitions),
--                          MeshCop/Format (the wire format, written as an encoder), with proofs in
--                          MeshCop/Options, Payload, Message, Tlvs and Petition.
--   main/meshcop.c         the exchange with a border agent: MeshCop/Client (`coap_post`,
--                          `read_real_response`, `meshcop_fetch_dataset`) with Fetch, Replies and Post;
--                          reading a dataset: MeshCop/Dataset (`meshcop_summarize`,
--                          `meshcop_print_tlvs`) with Dump and Decode.
--   main/otbr_rest_wire.h  what the REST API reads and writes: Rest/Wire (the body terminator, the
--                          JSON string writer, the dataset and toggle bodies) with Json, JsonReader
--                          and Bodies; Rest/Options (`otbr_rest_parse_epskc_options`) with Lifetime.
--   main/log_ring.c        the crash-surviving log: LogRing/Text (`utf8_len`, `append_clean`),
--                          LogRing/Slot (the memory layout and the checks), LogRing/Ring (the
--                          operations) with Clean, Utf8, Refine and Listing.
--   main/main.c            the Wi-Fi station: Wifi/Station (the reconnect supervisor and the event
--                          handler) with Ladder; Wifi/Join (`app_wifi_join`, `app_wifi_leave`) with
--                          Flash.
--   main/settings.c        the settings: Settings/Store with Laws.
--   main/power.c           the battery: Power/Gauge (the PMIC) with Reading, Power/History (the
--                          discharge history) with Rate and Discharge; main/matter_battery_model.h:
--                          Power/Matter.
--   main/power_log.c       the power log: PowerLog/Samples with Refine, Info and Number.
--   main/thread.c          Thread/Dataset (`thread_join` with its rollback, forming, forgetting, the
--                          hexadecimal digits) with Rollback and Hex; Thread/Topology (the scan) with
--                          Totals and Scan; Thread/Start (the start of the border router, the router
--                          preference) with Router; Thread/Txt (`meshcop_txt_apply_locked`) with
--                          Entries; Thread/Share (the name and the ephemeral key) with Advert.
--   main/otbr_rest.c       the REST server: Server/Body (`recv_body`), Server/Handlers with Jobs and
--                          DatasetBody, Server/Paging with Pages, Server/Batch (`logs_send`) with Logs,
--                          Server/Routes (`apply_routes`), Server/Control with Lifecycle.
--   main/qrscan.c          the scanner: Qrscan/Camera with Cycle and Outcome, Qrscan/Frame with Grey,
--                          Qrscan/Preview.
--   main/matter_battery.cpp the Matter endpoint: Battery/Publisher with Wakeup.
--   main/ui.c              Ui/Activity (the activity card) with Rates and History; Ui/Worker
--                          (`ui_run_on_worker`) with Handover.
-- Base holds what they share; each Tests module runs its part on concrete inputs. The client calls the
-- codec; the power log and the Matter battery take the reading of the gauge, and the Matter endpoint
-- publishes the latter's values. The REST handlers read bodies by Rest and plan jobs, of which setting a
-- dataset is Thread/Dataset's.
--
-- How code becomes definitions. A function of the source is a function of the same name, without its
-- file's prefix; a branch or a loop of a large one is a helper that its comment names. The C `int`s and
-- `uint`s are native numbers, with `% 2 ^ 32` where the source can wrap; a negative mark such as -1 is
-- `none`. The codec's buffers are lists of bytes, and a read or an advance past the end is the result
-- `oob` of `Base.Checked`, so that a theorem which gives a result also shows that every access was in
-- bounds. A NULL pointer is `none`; a C string is its bytes up to the NUL. A static variable is a field
-- of the state that a function takes and gives. A function that holds a spinlock is one step.
--
-- Bounds and fuel. A parser's loop runs on fuel, the length of its input (one more for the key
-- options), and gives `stuck` when that ends; each round consumes at least one byte. Handshake and
-- responses are lists of what mbedTLS returns, since their length is the peer's, and so are the reads of
-- a request's body. The fuel of a page is the count of the numbers left, that of the TXT loop
-- one more than the bytes, enough while its 16-bit offset does not wrap.
--
-- Parameters. mbedTLS, the Wi-Fi driver, NVS, the I2C bus, `esp_timer`, the random number generator,
-- OpenThread, the mDNS responder, esp_http_server, V4L2, quirc and esp-matter are not in the
-- repository: what their calls answer is an argument, any value being possible.
--
-- Not modelled: the screens and the other jobs of main/ui.c, the glue to Matter and mDNS (main/matter.cpp,
-- main/discover.c), the getters of main/thread.c, the texts of the JSON listings of main/otbr_rest.c, the
-- camera's self test, the console and the boot order in main/main.c, the cache write-back and the JSON
-- rows of the two logs, the floating-point rate of main/power.c, and the tools for the PC. Handlers that
-- run while a join waits are steps of their own and not interleaved with it.
pub mod Base
pub mod MeshCop
pub mod Rest
pub mod LogRing
pub mod Wifi
pub mod Settings
pub mod Power
pub mod PowerLog
pub mod Thread
pub mod Server
pub mod Qrscan
pub mod Battery
pub mod Ui
