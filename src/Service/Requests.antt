-- ===== src/Service/Requests.antt =====
-- `handle_request` and `_reject_cloud` in mcubridge/mcubridge/services/runtime.py, over the handlers of the
-- components. What other tasks do while a request waits for the link is an argument; whether the
-- wait ends in time makes no difference, since the timeout is only logged.
pub mod Authorized
mod Paused
mod Tests
use arduino_yun_bridge.Base.{
  ℕ, Bool, true, false, ◌||◌, Option, none, some, List, [], ◌∷◌, ◌++◌, if◌then◌else◌, Bytes, Text,
  codes, text_eq, is_empty,
}
use arduino_yun_bridge.Topics.{TopicRoute, parse_topic}
use arduino_yun_bridge.Storage.{Database}
use arduino_yun_bridge.Console.{Console, push, flush_console_queue}
use arduino_yun_bridge.Datastore.{
  Exchange, handle_datastore_put, handle_datastore_get, handle_mailbox_write, handle_mailbox_read,
}
use arduino_yun_bridge.Service.Access.{allows_topic, deduce_action, identifier, is_pin_topic}
use arduino_yun_bridge.Service.Pins.{Request, Pins, handle_pin}
use arduino_yun_bridge.Service.Board.{Board, Parsers, Answer, handle_system, handle_spi}
use arduino_yun_bridge.Service.Shell.{Shell, ShellParsers, System, handle_shell}
use arduino_yun_bridge.Service.Files.{FileSystem, Files, remainder}
use arduino_yun_bridge.Service.Files.Requests.{handle_file}

-- The report that an action is forbidden.
pub record Rejection : Type 0 where
  pub topic : Text
  pub action : Text
  pub request : Request

-- The built-ins, and the parsers of the payloads.
pub record Codecs : Type 0 where
  pub decode : Bytes → Option Text
  pub parse_int : Text → Option ℕ
  pub parsers : Parsers
  pub shell_parsers : ShellParsers

-- What one request meets.
pub record Surroundings : Type 0 where
  pub database : Database
  -- what `serial.send` returns, to the handlers that look at a payload, or only at its truth value
  pub answer : Answer
  pub sent : Bool
  -- the contents of the MCU's file that arrive in time
  pub arrivals : List Bytes
  pub system : System

unfoldable pub handle_console : Bytes → Console → Console
unfolding flush_console_queue
handle_console payload k = if is_empty payload then k else flush_console_queue (push payload k)

unfoldable pub handle_datastore : Database → TopicRoute → Bytes → Exchange → Exchange
unfolding handle_datastore_put handle_datastore_get
handle_datastore db r payload e =
    if text_eq (identifier r) (codes "put")
    then handle_datastore_put db (remainder r) payload e
    else if text_eq (identifier r) (codes "get")
    then handle_datastore_get db (remainder r) e
    else e

unfoldable pub handle_mailbox : Database → TopicRoute → Bytes → Exchange → Exchange
unfolding handle_mailbox_write handle_mailbox_read
handle_mailbox db r payload e =
    if text_eq (identifier r) (codes "write")
    then handle_mailbox_write db payload e
    else if text_eq (identifier r) (codes "read")
    then handle_mailbox_read db e
    else e

abbrev pub waits_for_link : Text → Bool
waits_for_link topic =
    is_pin_topic topic || text_eq topic (codes "console") || text_eq topic (codes "spi")

abbrev pub authorized : Option (Text → Bool) → Text → Text → Bool
authorized none topic act = false
authorized (some auth) topic act = allows_topic auth topic act

module _ (fs : FileSystem) (c : Codecs) where
  pub record Service : Type 0 where
    pub cloud_topic_prefix : Text
    -- the fields of the message; none without a message
    pub topic_authorization : Option (Text → Bool)
    pub console : Console
    pub exchange : Exchange
    pub pins : Pins
    pub board : Board
    pub shell : Shell
    pub files : Files fs
    pub rejections : List Rejection

  -- The `match` on the topic.
  unfoldable pub dispatch : Surroundings → TopicRoute → Request → Service → Service
  unfolding handle_console handle_datastore handle_mailbox handle_file handle_shell handle_spi
      handle_pin handle_system
  dispatch w r q s =
      if text_eq r.topic (codes "console")
      then record s { console = handle_console q.payload s.console }
      else if text_eq r.topic (codes "datastore")
      then record s { exchange = handle_datastore w.database r q.payload s.exchange }
      else if text_eq r.topic (codes "mailbox")
      then record s { exchange = handle_mailbox w.database r q.payload s.exchange }
      else if text_eq r.topic (codes "file")
      then record s { files = handle_file fs w.sent w.arrivals r q s.files }
      else if text_eq r.topic (codes "sh")
      then record s { shell = handle_shell c.shell_parsers w.system r q s.shell }
      else if text_eq r.topic (codes "spi")
      then record s { board = handle_spi c.parsers w.answer r q s.board }
      else if is_pin_topic r.topic
      then record s { pins = handle_pin c.decode c.parse_int r q s.pins }
      else if text_eq r.topic (codes "system")
      then record s { board = handle_system c.parsers w.answer r q s.board }
      else s

  abbrev pub reject_cloud : Request → Text → Text → Service → Service
  reject_cloud q topic act s = record s {
    rejections = s.rejections ++ (record { topic = topic; action = act; request = q } ∷ []);
  }

  abbrev pub decide : Surroundings → TopicRoute → Request → Option Text → Service → Service
  decide w r q none s = dispatch w r q s
  decide w r q (some act) s =
      if authorized s.topic_authorization r.topic act
      then dispatch w r q s
      else reject_cloud q r.topic act s

  -- `wait`: what the other tasks do meanwhile.
  abbrev pub routed :
      (Service → Service) → Surroundings → Request → Option TopicRoute → Service → Service
  routed wait w q none s = s
  routed wait w q (some r) s =
      decide w r q (deduce_action r) (if waits_for_link r.topic then wait s else s)

  unfoldable pub handle_request : (Service → Service) → Surroundings → Request → Service → Service
  unfolding parse_topic dispatch allows_topic deduce_action
  handle_request wait w q s = routed wait w q (parse_topic s.cloud_topic_prefix q.topic) s
