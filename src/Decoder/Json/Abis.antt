-- ===== src/Decoder/Json/Abis.antt =====
-- The ABIs by which native_to_json decodes.
use eos_chronicle.Base.{ℕ, ◌≡◌, refl, ap, ◌∙◌, false, Option, some, ◌++◌}
use eos_chronicle.Base.Exec.{ok}
use eos_chronicle.Receiver.State.{World, ReceiverOf}
use eos_chronicle.Store.Rows.{ContractAbi}
use eos_chronicle.Receiver.Laws.{Laws}
use eos_chronicle.Receiver.Abi.{tables, get_contract_abi_ready}
use eos_chronicle.Receiver.Abi.Cache.{loaded_in}
use eos_chronicle.Receiver.Abi.Saving.{CacheInv}
use eos_chronicle.Receiver.Abi.Agreement.{get_contract_abi_ready_lem}
use eos_chronicle.Receiver.Abi.Framed.{get_contract_abi_ready-Frame}
use eos_chronicle.Decoder.Json.{Printers, Native, JsonState, native_to_json}
use eos_chronicle.Decoder.Json.Trees.{Json, tokens, Known, Shows}
use eos_chronicle.Decoder.Json.Written.{native-Writes}

module _ (w : World) (l : Laws w) (print : Printers w.decoder.Context) where
  -- The context holds the ABI that the table has for the contract.
  abbrev pub HoldsAbi : ReceiverOf w → ℕ → Option w.decoder.Context → Type 0
  HoldsAbi r a ctxt =
      (x : ContractAbi)
      → w.abis.find a (tables w r).abis ≡ some x
      → loaded_in w l ctxt a ≡ some x.abi

  -- In a scanning mode, from a receiver whose context agrees with the table of ABIs, every field
  -- that an ABI encodes is decoded, or refused, by a context that holds the ABI that the table has
  -- for the contract; the database does not change and the agreement is kept.
  pub native_to_json-HoldsAbi :
      (v : Native) (s : JsonState w)
      → Known v
      → s.receiver.config.interactive_mode ≡ false
      → CacheInv w l s.receiver
      → (j : Json) × (n : ℕ) × (t : JsonState w) × (native_to_json w print v s ≡ (ok tt, t))
        × Shows w print (HoldsAbi s.receiver) v j n
        × (t.writer ≡ s.writer ++ tokens j)
        × (t.receiver.db ≡ s.receiver.db)
        × CacheInv w l t.receiver
  native_to_json-HoldsAbi v s known scanning agrees =
      let (out, n, t, run, (j, e, shows), wrote, grew, (same, scans, inv)) =
        native-Writes w print
          (λ r. (r.db ≡ s.receiver.db) × (r.config.interactive_mode ≡ false) × CacheInv w l r)
          (HoldsAbi s.receiver) load v known s (refl, scanning, agrees) in
      (j, n, t, run, shows, wrote ∙ ap (λ z. s.writer ++ z) e, same, inv)
    where
      load :
          (a : ℕ) (r : ReceiverOf w)
          → (r.db ≡ s.receiver.db) × (r.config.interactive_mode ≡ false) × CacheInv w l r
          → let t = (get_contract_abi_ready w a r).1 in
            ((t.db ≡ s.receiver.db) × (t.config.interactive_mode ≡ false) × CacheInv w l t)
            × HoldsAbi s.receiver a t.contract_abi_ctxt
      load a r (same, scans, inv) =
          let (kept, ready, db, held) = get_contract_abi_ready_lem w l a r scans inv in
          let only = (get_contract_abi_ready-Frame w l a r).only in
          (
            (db ∙ same, ap (λ x. x.config.interactive_mode) only ∙ scans, kept),
            λ x found. held x (ap (λ d. w.abis.find a (w.database.contents d).abis) same ∙ found),
          )
