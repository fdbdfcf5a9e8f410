-- ===== src/Service/Toy.antt =====
-- A service at rest, whose texts are their own bytes and which parses nothing but texts.
use arduino_yun_bridge.Base.{Bool, true, false, Option, none, some, [], Bytes, Text, codes}
use arduino_yun_bridge.Storage.{works, Deque}
use arduino_yun_bridge.Processes.{os_error, Output}
use arduino_yun_bridge.Service.Pins.{Request}
use arduino_yun_bridge.Service.Board.{returned}
use arduino_yun_bridge.Service.Files.Toy.{toy, files_toy}
use arduino_yun_bridge.Service.Requests.{Codecs, Surroundings, Service}

abbrev pub codecs : Codecs
codecs = record {
  decode = λ b. some b;
  parse_int = λ t. none;
  parsers = record {
    version_of = λ b. none;
    free_memory_of = λ b. none;
    spi_data_of = λ b. none;
    spi_config_of = λ b. none;
  };
  shell_parsers = record {
    command_of = λ b. none;
    text_of = λ b. some b;
    allowed = λ t. false;
    parse_int = λ t. none;
  };
}

abbrev no_output : Output
no_output = record { bytes = []; truncated = false; at_eof = true }

abbrev pub surroundings : Surroundings
surroundings = record {
  database = works;
  answer = returned true;
  sent = true;
  arrivals = [];
  system = record {
    spawn = os_error;
    stdout = no_output;
    stderr = no_output;
    finished = false;
    termination = record {
      returncode = none;
      term_found = true;
      late_returncode = none;
      graceful = none;
      kill_found = true;
      killed = none;
    };
  };
}

abbrev queue : Deque
queue = record { in_file = true; rows = []; count = 0; maxlen = none }

abbrev pub at_rest : Option (Text → Bool) → Service toy codecs
at_rest auth = record {
  cloud_topic_prefix = codes "br";
  topic_authorization = auth;
  console = record {
    mcu_is_paused = true;
    serial_tx_allowed = true;
    console_to_mcu_queue = [];
    mailbox_queue_limit = 64;
    written = [];
    sends = [];
  };
  exchange = record {
    datastore_cache = none;
    mailbox_queue = queue;
    mailbox_incoming_queue = queue;
    to_mcu = [];
    to_cloud = [];
    raised = false;
  };
  pins = record {
    pending_pin_request_limit = 2;
    pending_digital_reads = [];
    pending_analog_reads = [];
    packets = [];
    reports = [];
    raised = false;
  };
  board = record { mcu_version = none; sent_packets = []; board_reports = []; raised = false };
  shell = record {
    table = record { free = 1; running_processes = [] };
    shell_reports = [];
    waiting = false;
    raised = false;
  };
  files = files_toy;
  rejections = [];
}

abbrev pub request : Text → Bytes → Request
request topic payload = record {
  topic = topic;
  payload = payload;
  correlation_data = none;
  response_topic = none;
}
