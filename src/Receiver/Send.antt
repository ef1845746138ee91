-- ===== src/Receiver/Send.antt =====
-- send_request of receiver_plugin_impl. A request that is sent is recorded as what its bytes encode; the
-- write itself, and the callback that closes the program when it fails, are left out.
use eos_chronicle.Base.{[], ◌∷◌, ◌++◌}
use eos_chronicle.Base.Exec.{Exec, Result, ok, err}
use eos_chronicle.Store.Rows.{Bytes}
use eos_chronicle.Messages.Input.{AbiType, parsed}
use eos_chronicle.Messages.Events.{BlocksRequest}
use eos_chronicle.Receiver.State.{ReceiverOf, World}
use eos_chronicle.Receiver.Types.{get_type}

module _ (w : World) where
  abbrev encoded_by : BlocksRequest → Result AbiType → Result Bytes
  encoded_by request (err e) = err e
  encoded_by request (ok type) = parsed (w.request_to_bin type request)

  -- The bytes of a request, or the exception: of get_type or of json_to_bin.
  abbrev pub encoded : BlocksRequest → ReceiverOf w → Result Bytes
  encoded request r = encoded_by request (get_type "request" r.abi_types)

  abbrev pub sent : BlocksRequest → Result Bytes → Exec (ReceiverOf w) (Unit {0})
  sent request (err e) r = (err e, r)
  sent request (ok bin) r = (ok tt, record r { requests = r.requests ++ request ∷ [] })

  unfoldable pub send_request : BlocksRequest → Exec (ReceiverOf w) (Unit {0})
  send_request request r = sent request (encoded request r) r
