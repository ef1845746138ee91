-- ===== src/Receiver/Deltas.antt =====
-- receive_deltas of receiver_plugin_impl: the table deltas of a block.
pub mod Cached
use eos_chronicle.Base.{
  ℕ, zero, suc, ◌≡◌, Bool, true, false, not, ◌&&◌, ◌||◌, String, Option, none, some, List, [], ◌∷◌,
  if◌then◌else◌, contains, str_eq,
}
use eos_chronicle.Base.Exec.{
  Exec, Error, Result, ok, err, throw, pure, lift, gets, modify, ◌>>=◌, ◌>>◌,
}
use eos_chronicle.Store.Rows.{Bytes}
use eos_chronicle.Messages.Input.{
  AbiType, Account, ContractRow, DeltaRow, TableDelta, parsed, Codec,
}
use eos_chronicle.Messages.Events.{Event}
use eos_chronicle.Receiver.State.{Config, Receiver, ReceiverOf, World, publish}
use eos_chronicle.Receiver.Types.{
  get_type, check_variant_index, check_variant_name, first_is_struct,
}
use eos_chronicle.Receiver.Abi.{clear_contract_abi, save_contract_abi, get_contract_abi_ready}

-- The branches for the rows of a table.
pub data RowKind : Type 0 where
  accounts contract_rows permissions permission_links metadata ignored : RowKind

module _ (w : World) where
  -- One step for each row, in order. A row is read in place: each step gives the row with what is
  -- left of its data.
  pub for_rows :
      (DeltaRow → Exec (ReceiverOf w) DeltaRow)
      → List DeltaRow
      → Exec (ReceiverOf w) (List DeltaRow)
  for_rows f [] = pure []
  for_rows f (row ∷ rows) = f row >>= λ read. for_rows f rows >>= λ others. pure (read ∷ others)

  abbrev pub left_of : DeltaRow → Bytes → DeltaRow
  left_of row rest = record row { payload = rest }

  abbrev is_empty : Bytes → Bool
  is_empty [] = true
  is_empty (b ∷ bs) = false

  abbrev remember_abi : Account → Exec (ReceiverOf w) (Unit {0})
  remember_abi acc =
      if is_empty acc.abi
      then clear_contract_abi w acc.name
      else save_contract_abi w acc.name acc.abi

  -- A row of the table "account".
  pub account_row : AbiType → DeltaRow → Exec (ReceiverOf w) DeltaRow
  account_row type row = lift (check_variant_index w.codec row.payload type 0) >>= λ bin.
      if row.present
      then (lift (parsed (w.codec.account_from_bin bin)) >>= λ acc.
          remember_abi acc.0 >>= λ u. pure (left_of row acc.1))
      else pure (left_of row bin)

  -- The tables filter and the tables blacklist.
  pub takes : Config → ContractRow → Bool
  takes c kvo =
      not (c.enable_tables_filter && not (contains kvo.code c.tables_filter))
      && not (c.enable_tables_blacklist && contains kvo.code c.tables_blacklist)

  abbrev publish_row : Bool → DeltaRow → ContractRow → ReceiverOf w → ReceiverOf w
  publish_row true row kvo r =
      publish
        (Event.table_row_updates (record {
          block_num = r.head;
          block_timestamp = r.block_header.timestamp;
          added = row.present;
          kvo = kvo;
        }))
        r
  publish_row false row kvo r =
      publish
        (Event.abi_errors (record {
          block_num = r.head;
          block_timestamp = r.block_header.timestamp;
          account = kvo.code;
          error = Error.abi_missing;
        }))
        r

  abbrev take_row : DeltaRow → ContractRow → ReceiverOf w → ReceiverOf w
  take_row row kvo r =
      let (ready, s) = get_contract_abi_ready w kvo.code r in publish_row ready row kvo s

  -- A row of the table "contract_row".
  pub contract_row : AbiType → DeltaRow → Exec (ReceiverOf w) DeltaRow
  unfolding takes
  contract_row type row = lift (check_variant_index w.codec row.payload type 0) >>= λ bin.
      lift (parsed (w.codec.row_from_bin bin)) >>= λ kvo.
      modify (λ r. if takes r.config kvo.0 then take_row row kvo.0 r else r) >>= λ u.
      pure (left_of row kvo.1)

  -- A row of "permission", "permission_link" or "account_metadata": it is read and published.
  pub plain_row :
      (Bytes → Option (Bytes × Bytes))
      → (ReceiverOf w → Bool → Bytes → Event)
      → AbiType
      → DeltaRow
      → Exec (ReceiverOf w) DeltaRow
  plain_row read event type row = lift (check_variant_index w.codec row.payload type 0) >>= λ bin.
      lift (parsed (read bin)) >>= λ object.
      modify (λ r. publish (event r row.present object.0) r) >>= λ u. pure (left_of row object.1)

  abbrev permission_event : ReceiverOf w → Bool → Bytes → Event
  permission_event r added object = Event.permission_updates (record {
    block_num = r.head;
    block_timestamp = r.block_header.timestamp;
    added = added;
    permission = object;
  })

  abbrev permission_link_event : ReceiverOf w → Bool → Bytes → Event
  permission_link_event r added object = Event.permission_link_updates (record {
    block_num = r.head;
    block_timestamp = r.block_header.timestamp;
    added = added;
    permission = object;
  })

  abbrev metadata_event : ReceiverOf w → Bool → Bytes → Event
  metadata_event r added object = Event.account_metadata_updates (record {
    block_num = r.head;
    block_timestamp = r.block_header.timestamp;
    account_metadata = object;
  })

  -- Which of the branches handles the rows of a table, by its name, the options and the
  -- subscribers.
  unfoldable pub row_kind : String → ReceiverOf w → RowKind
  row_kind name r =
      if not r.config.interactive_mode && str_eq name "account"
      then accounts
      else if not (not r.config.noexport_mode && not r.config.skip_table_deltas)
      then ignored
      else if str_eq name "contract_row"
          && (r.subscribers.table_row_updates || r.subscribers.abi_errors)
      then contract_rows
      else if r.config.skip_account_info
      then ignored
      else if str_eq name "permission" && r.subscribers.permission_updates
      then permissions
      else if str_eq name "permission_link" && r.subscribers.permission_link_updates
      then permission_links
      else if str_eq name "account_metadata" && r.subscribers.account_metadata_updates
      then metadata
      else ignored

  pub row_step : RowKind → AbiType → DeltaRow → Exec (ReceiverOf w) DeltaRow
  row_step accounts = account_row
  row_step contract_rows = contract_row
  row_step permissions = plain_row w.codec.permission_from_bin permission_event
  row_step permission_links = plain_row w.codec.permission_link_from_bin permission_link_event
  row_step metadata = plain_row w.codec.metadata_from_bin metadata_event
  row_step ignored = λ type row. pure row

  abbrev publish_delta : TableDelta → ReceiverOf w → ReceiverOf w
  publish_delta delta r =
      if r.subscribers.block_table_deltas
      then publish
          (Event.block_table_deltas
            (record { block_timestamp = r.block_header.timestamp; table_delta = delta }))
          r
      else r

  -- The body of the loop over the deltas, after the delta was read. What is published holds the rows
  -- as the loops have left them.
  pub receive_delta : TableDelta → Exec (ReceiverOf w) (Unit {0})
  receive_delta delta r =
      (lift (get_type delta.name r.abi_types) >>= λ type.
      if first_is_struct type.alternatives
      then (for_rows (row_step (row_kind delta.name r) type) delta.rows >>= λ rows.
          modify (publish_delta (record delta { rows = rows })))
      else throw Error.unknown_table)
        r

  pub receive_deltas_from : ℕ → Bytes → Exec (ReceiverOf w) (Unit {0})
  receive_deltas_from zero bin = pure tt
  receive_deltas_from (suc num) bin = gets (λ r. r.abi_types) >>= λ types.
      lift (get_type "table_delta" types) >>= λ type.
      lift (check_variant_name w.codec bin type "table_delta_v0") >>= λ rest.
      lift (parsed (w.codec.delta_from_bin rest)) >>= λ read.
      receive_delta read.0 >>= λ u. receive_deltas_from num read.1

  unfoldable pub receive_deltas : Bytes → Exec (ReceiverOf w) (Unit {0})
  receive_deltas bin =
      lift (parsed (w.codec.varuint32_from_bin bin)) >>= λ read. receive_deltas_from read.0 read.1
