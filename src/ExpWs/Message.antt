-- ===== src/ExpWs/Message.antt =====
-- The messages of the exporter: on_event_bin and on_event_json of exp_ws_plugin_impl. Characters are
-- their bytes. A failure to allocate memory is left out.
pub mod RoundTrip
use eos_chronicle.Base.{ℕ, zero, suc, ◌*◌, ◌/◌, ◌%◌, List, [], ◌∷◌, ◌++◌}
use eos_chronicle.Store.Rows.{Bytes}
use eos_chronicle.ExpWs.Queue.{Exporter, push_msg}

-- memcpy of an int32_t: four bytes, the lowest first (the native order of the platforms that the
-- program is built for). A message type is not negative.
abbrev pub bytes_of_int32 : ℕ → Bytes
bytes_of_int32 n = n % 256 ∷ n / 256 % 256 ∷ n / 65536 % 256 ∷ n / 16777216 % 256 ∷ []

unfoldable pub bin_message : ℕ → ℕ → Bytes → Bytes
bin_message msgtype msgopts event = bytes_of_int32 msgtype ++ bytes_of_int32 msgopts ++ event

unfoldable pub on_event_bin : ℕ → ℕ → Bytes → Exporter → Exporter
unfolding bin_message
on_event_bin msgtype msgopts event x = push_msg (bin_message msgtype msgopts event) x

-- {"msgtype":"…","data":…}
abbrev pub json_open : Bytes
json_open = 123 ∷ 34 ∷ 109 ∷ 115 ∷ 103 ∷ 116 ∷ 121 ∷ 112 ∷ 101 ∷ 34 ∷ 58 ∷ 34 ∷ []

abbrev pub json_middle : Bytes
json_middle = 34 ∷ 44 ∷ 34 ∷ 100 ∷ 97 ∷ 116 ∷ 97 ∷ 34 ∷ 58 ∷ []

unfoldable pub json_message : Bytes → Bytes → Bytes
json_message msgtype event = json_open ++ msgtype ++ json_middle ++ event ++ 125 ∷ []

unfoldable pub on_event_json : Bytes → Bytes → Exporter → Exporter
unfolding json_message
on_event_json msgtype event x = push_msg (json_message msgtype event) x
