-- ===== src/Protocol/Command.antt =====
-- The command ids of the enum Command (tools/protocol/mcubridge.proto), and the rows that
-- tools/protocol/generate.py reads from it.
use arduino_yun_bridge.Base.{ℕ, Bool, true, false, List, [], ◌∷◌, Text, codes}

abbrev pub get_version : ℕ
get_version = 64

abbrev pub get_version_resp : ℕ
get_version_resp = 65

abbrev pub get_free_memory : ℕ
get_free_memory = 66

abbrev pub get_free_memory_resp : ℕ
get_free_memory_resp = 67

abbrev pub link_sync : ℕ
link_sync = 68

abbrev pub link_sync_resp : ℕ
link_sync_resp = 69

abbrev pub link_reset : ℕ
link_reset = 70

abbrev pub link_reset_resp : ℕ
link_reset_resp = 71

abbrev pub get_capabilities : ℕ
get_capabilities = 72

abbrev pub get_capabilities_resp : ℕ
get_capabilities_resp = 73

abbrev pub set_baudrate : ℕ
set_baudrate = 74

abbrev pub set_baudrate_resp : ℕ
set_baudrate_resp = 75

abbrev pub enter_bootloader : ℕ
enter_bootloader = 76

abbrev pub xoff : ℕ
xoff = 78

abbrev pub xon : ℕ
xon = 79

abbrev pub set_pin_mode : ℕ
set_pin_mode = 80

abbrev pub digital_write : ℕ
digital_write = 81

abbrev pub analog_write : ℕ
analog_write = 82

abbrev pub digital_read : ℕ
digital_read = 83

abbrev pub analog_read : ℕ
analog_read = 84

abbrev pub digital_read_resp : ℕ
digital_read_resp = 85

abbrev pub analog_read_resp : ℕ
analog_read_resp = 86

abbrev pub console_write : ℕ
console_write = 96

abbrev pub datastore_put : ℕ
datastore_put = 112

abbrev pub datastore_get : ℕ
datastore_get = 113

abbrev pub datastore_get_resp : ℕ
datastore_get_resp = 114

abbrev pub mailbox_read : ℕ
mailbox_read = 128

abbrev pub mailbox_processed : ℕ
mailbox_processed = 129

abbrev pub mailbox_available : ℕ
mailbox_available = 130

abbrev pub mailbox_push : ℕ
mailbox_push = 131

abbrev pub mailbox_read_resp : ℕ
mailbox_read_resp = 132

abbrev pub mailbox_available_resp : ℕ
mailbox_available_resp = 133

abbrev pub file_write : ℕ
file_write = 144

abbrev pub file_read : ℕ
file_read = 145

abbrev pub file_remove : ℕ
file_remove = 146

abbrev pub file_read_resp : ℕ
file_read_resp = 147

abbrev pub process_run_async : ℕ
process_run_async = 161

abbrev pub process_poll : ℕ
process_poll = 162

abbrev pub process_kill : ℕ
process_kill = 163

abbrev pub process_run_async_resp : ℕ
process_run_async_resp = 165

abbrev pub process_poll_resp : ℕ
process_poll_resp = 166

abbrev pub spi_begin : ℕ
spi_begin = 176

abbrev pub spi_transfer : ℕ
spi_transfer = 177

abbrev pub spi_transfer_resp : ℕ
spi_transfer_resp = 178

abbrev pub spi_end : ℕ
spi_end = 179

abbrev pub spi_set_config : ℕ
spi_set_config = 180

-- `CommandDef` of generate.py, with the fields that the Python bindings are made from.
pub record CommandDef : Type 0 where
  pub name : Text
  pub value : ℕ
  pub requires_ack : Bool

abbrev row : Text → ℕ → Bool → CommandDef
row n v a = record { name = n; value = v; requires_ack = a }

-- The rows in the order of the enum.
unfoldable pub commands : List CommandDef
commands =
    row (codes "CMD_GET_VERSION") get_version false
    ∷ row (codes "CMD_GET_VERSION_RESP") get_version_resp false
    ∷ row (codes "CMD_GET_FREE_MEMORY") get_free_memory false
    ∷ row (codes "CMD_GET_FREE_MEMORY_RESP") get_free_memory_resp false
    ∷ row (codes "CMD_LINK_SYNC") link_sync false
    ∷ row (codes "CMD_LINK_SYNC_RESP") link_sync_resp false
    ∷ row (codes "CMD_LINK_RESET") link_reset false
    ∷ row (codes "CMD_LINK_RESET_RESP") link_reset_resp false
    ∷ row (codes "CMD_GET_CAPABILITIES") get_capabilities false
    ∷ row (codes "CMD_GET_CAPABILITIES_RESP") get_capabilities_resp false
    ∷ row (codes "CMD_SET_BAUDRATE") set_baudrate true
    ∷ row (codes "CMD_SET_BAUDRATE_RESP") set_baudrate_resp false
    ∷ row (codes "CMD_ENTER_BOOTLOADER") enter_bootloader true
    ∷ row (codes "CMD_XOFF") xoff false
    ∷ row (codes "CMD_XON") xon false
    ∷ row (codes "CMD_SET_PIN_MODE") set_pin_mode true
    ∷ row (codes "CMD_DIGITAL_WRITE") digital_write true
    ∷ row (codes "CMD_ANALOG_WRITE") analog_write true
    ∷ row (codes "CMD_DIGITAL_READ") digital_read false
    ∷ row (codes "CMD_ANALOG_READ") analog_read false
    ∷ row (codes "CMD_DIGITAL_READ_RESP") digital_read_resp false
    ∷ row (codes "CMD_ANALOG_READ_RESP") analog_read_resp false
    ∷ row (codes "CMD_CONSOLE_WRITE") console_write true
    ∷ row (codes "CMD_DATASTORE_PUT") datastore_put true
    ∷ row (codes "CMD_DATASTORE_GET") datastore_get false
    ∷ row (codes "CMD_DATASTORE_GET_RESP") datastore_get_resp false
    ∷ row (codes "CMD_MAILBOX_READ") mailbox_read false
    ∷ row (codes "CMD_MAILBOX_PROCESSED") mailbox_processed false
    ∷ row (codes "CMD_MAILBOX_AVAILABLE") mailbox_available false
    ∷ row (codes "CMD_MAILBOX_PUSH") mailbox_push true
    ∷ row (codes "CMD_MAILBOX_READ_RESP") mailbox_read_resp false
    ∷ row (codes "CMD_MAILBOX_AVAILABLE_RESP") mailbox_available_resp false
    ∷ row (codes "CMD_FILE_WRITE") file_write true
    ∷ row (codes "CMD_FILE_READ") file_read false
    ∷ row (codes "CMD_FILE_REMOVE") file_remove false
    ∷ row (codes "CMD_FILE_READ_RESP") file_read_resp false
    ∷ row (codes "CMD_PROCESS_RUN_ASYNC") process_run_async false
    ∷ row (codes "CMD_PROCESS_POLL") process_poll false
    ∷ row (codes "CMD_PROCESS_KILL") process_kill false
    ∷ row (codes "CMD_PROCESS_RUN_ASYNC_RESP") process_run_async_resp false
    ∷ row (codes "CMD_PROCESS_POLL_RESP") process_poll_resp false
    ∷ row (codes "CMD_SPI_BEGIN") spi_begin true
    ∷ row (codes "CMD_SPI_TRANSFER") spi_transfer false
    ∷ row (codes "CMD_SPI_TRANSFER_RESP") spi_transfer_resp false
    ∷ row (codes "CMD_SPI_END") spi_end true
    ∷ row (codes "CMD_SPI_SET_CONFIG") spi_set_config true
    ∷ []
