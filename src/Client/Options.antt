-- ===== src/Client/Options.antt =====
-- `parse_port` and `parse_options` of src/client.cpp.
pub mod Checks
use concurrent_tcp_file_tran.Base.{
  ℕ, zero, suc, ◌%◌, ◌^◌, ◌≤◌, ◌<◌, [], ◌∷◌, List, Bool, true, false, Option, none, some, Bytes,
  codes, same, not, ◌||◌, ◌&&◌, ltb, ◌==◌, if◌then◌else◌, ◌≡◌, ◌≢◌, refl, subst, arith, Bool-cases,
  Option-cases, inl, inr,
}
use concurrent_tcp_file_tran.Number.{parse_uint64, max_uint16}
use concurrent_tcp_file_tran.FileName.{is_safe_filename}
use concurrent_tcp_file_tran.Server.Event.{is_empty}
use concurrent_tcp_file_tran.Client.Get.{Options, Command, get, put}

unfoldable pub port_of : Option ℕ → Option ℕ
port_of none = none
port_of (some parsed) =
    if parsed == 0 || ltb max_uint16 parsed then none else some (parsed % 2 ^ 16)

unfoldable pub client_port : Bytes → Option ℕ
unfolding port_of
client_port text = port_of (parse_uint64 text)

-- The options read so far, and the flags `saw_…`.
pub record Seen : Type 0 where
  pub options : Options
  pub saw_host : Bool
  pub saw_port : Bool
  pub saw_remote : Bool
  pub saw_local : Bool

abbrev pub max_delay : ℕ
max_delay = 60000

unfoldable pub set_port : Seen → Option ℕ → Option Seen
set_port seen none = none
set_port seen (some port) =
    some (record seen { options = record seen.options { port = port }; saw_port = true })

unfoldable pub set_delay : Seen → Option ℕ → Option Seen
set_delay seen none = none
set_delay seen (some delay) =
    if ltb max_delay delay
    then none
    else some (record seen { options = record seen.options { delay_ms = delay % 2 ^ 32 } })

-- One argument and its value; `none` where the programme refuses its arguments.
unfoldable pub take_option : Seen → Bytes → Bytes → Option Seen
unfolding set_port set_delay
take_option seen argument value =
    if same argument (codes "--host")
    then (if seen.saw_host || is_empty value
        then none
        else some (record seen { options = record seen.options { host = value }; saw_host = true }))
    else if same argument (codes "--port")
    then (if seen.saw_port then none else set_port seen (client_port value))
    else if same argument (codes "--remote")
    then (if seen.saw_remote || not (is_safe_filename value)
        then none
        else some (record seen {
          options = record seen.options { remote_name = value };
          saw_remote = true;
        }))
    else if same argument (codes "--local")
    then (if seen.saw_local || is_empty value
        then none
        else some (record seen {
          options = record seen.options { local_path = value };
          saw_local = true;
        }))
    else if same argument (codes "--delay-ms")
    then set_delay seen (parse_uint64 value)
    else none

-- The loop over the arguments, two at a time.
unfoldable pub take_options : List Bytes → Option Seen → Option Seen
take_options arguments none = none
take_options [] (some seen) = some seen
take_options (argument ∷ []) (some seen) = none
take_options (argument ∷ value ∷ rest) (some seen) =
    take_options rest (take_option seen argument value)

unfoldable pub all_seen : Option Seen → Option Options
all_seen none = none
all_seen (some seen) =
    if not seen.saw_host || not seen.saw_port || not seen.saw_remote || not seen.saw_local
    then none
    else some seen.options

abbrev pub unseen : Command → Seen
unseen command = record {
  options = record {
    operation = command;
    host = [];
    remote_name = [];
    local_path = [];
    port = 0;
    delay_ms = 0;
  };
  saw_host = false;
  saw_port = false;
  saw_remote = false;
  saw_local = false;
}

-- The arguments without the programme's name.
unfoldable pub parse_options : List Bytes → Option Options
unfolding take_options all_seen
parse_options [] = none
parse_options (operation ∷ arguments) =
    if same operation (codes "get")
    then all_seen (take_options arguments (some (unseen get)))
    else if same operation (codes "put")
    then all_seen (take_options arguments (some (unseen put)))
    else none
